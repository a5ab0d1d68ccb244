-- ===== src/Installer/BlockDevice/Bounded.antt =====
-- installer/block_device.go: no byte at or past the size of the update is touched.
pub mod Stores
pub mod Updates
use ota_pulse.Prelude.{
  ℕ, zero, suc, ◌+◌, ◌-◌, ◌/◌, ◌%◌, ◌^◌, ◌≤◌, ◌<◌, ◌≡◌, refl, sym as flip, ap, ◌∙◌, ◌⊎◌, inl, inr,
  Bool, true, false, Option, none, some, List, [], ◌∷◌, ◌++◌, ltb, leb, ◌==◌, arith, if◌then◌else◌,
  length, get_elem?, Bool-cases, Option-cases,
}
use ota_pulse.Prelude.Int.{pos}
use ota_pulse.Prelude.Segments.{
  take, drop, overwrite, equal_bytes, length-take-le, length-take-le_length, length-append,
  take-append-drop, get_elem?-overwrite,
}
use ota_pulse.Installer.BlockDevice.File.{
  Call, read, write, seek_back, sync, Err, System, Disk, Did, did, read_full, answer_read,
  seek_back_by, write_file, write_part, answer_write, close_file, called, sync_file,
}
use ota_pulse.Installer.BlockDevice.Flushing
use ota_pulse.Installer.BlockDevice.Flushing.{FlushingWriter, flushed}
use ota_pulse.Installer.BlockDevice.Optimized
use ota_pulse.Installer.BlockDevice.Optimized.{
  OptimizedBlockDeviceWriter, write_dirty, after_seek, after_read,
}
use ota_pulse.Installer.BlockDevice.Framed
use ota_pulse.Installer.BlockDevice.Framed.{BlockFrameWriter, write_frames, written, go_on}
use ota_pulse.Installer.BlockDevice.Limited
use ota_pulse.Installer.BlockDevice.Limited.{
  Sink, framed, raw, LimitedWriteCloser, sink_write, sink_close, disk_of,
}

-- From the limit on the content is the old one, and so many bytes have room before the limit.
pub record Within (limit : ℕ) (old : List ℕ) (room : ℕ) (d : Disk) : Type 0 where
  pub kept : (i : ℕ) → limit ≤ i → get_elem? d.content i ≡ get_elem? old i
  pub fits : d.pos + room ≤ limit

module _ (sys : System) (limit : ℕ) (old : List ℕ) where
  abbrev pub In : ℕ → Disk → Type 0
  In = Within limit old

  pub weaken-In : (k m : ℕ) (d : Disk) → m ≤ k → In k d → In m d
  weaken-In k m d le h = record { kept = h.kept; fits = let f = h.fits in omega arith }

  pub traced : (c : Call) {k : ℕ} {d : Disk} → In k d → In k (called sys c d)
  traced c h = record { kept = h.kept; fits = h.fits }

  write_some-In :
      (bytes : List ℕ) (k : ℕ) (d : Disk)
      → In (length bytes + k) d
      → In k (write_part sys d bytes none).after
  write_some-In bytes k d h = record {
    kept = λ i far.
        get_elem?-overwrite d.pos bytes d.content i (let f = h.fits in omega arith) ∙ h.kept i far;
    fits = let f = h.fits in omega arith;
  }

  answer_write-In :
      (p fits : List ℕ) (k : ℕ) (d : Disk) (o : Option ℕ)
      → length fits ≤ length p
      → In (length p + k) d
      → In k (answer_write sys (length p) fits d o).after
  answer_write-In p fits k d none le h = write_some-In fits k d (weaken-In _ _ d (omega arith) h)
  answer_write-In p fits k d (some n) le h =
      write_some-In (take n fits) k d
        (weaken-In _ _ d (omega (arith, length-take-le_length n fits)) h)

  pub write_file-In :
      (p : List ℕ) (k : ℕ) (d : Disk) → In (length p + k) d → In k (write_file sys p d).after
  unfolding write_file
  write_file-In p k d h =
      answer_write-In p (take (length d.content - d.pos) p) k (called sys (write p) d)
        (sys.write_stops (write p ∷ d.trace)) (length-take-le_length _ p) (traced (write p) h)

  answer_read-In :
      (wanted k : ℕ) (bytes : List ℕ) (d : Disk) (o : Option ℕ)
      → length bytes ≤ wanted
      → In (wanted + k) d
      → In k (answer_read sys wanted bytes d o).after
  answer_read-In wanted k bytes d none le h = record {
    kept = h.kept;
    fits = let f = h.fits in omega arith;
  }
  answer_read-In wanted k bytes d (some n) le h = record {
    kept = h.kept;
    fits = let f = h.fits in omega (arith, length-take-le_length n bytes);
  }

  read_full-In : (wanted k : ℕ) (d : Disk) → In (wanted + k) d → In k (read_full sys wanted d).after
  unfolding read_full
  read_full-In wanted k d h =
      answer_read-In wanted k (take wanted (drop d.pos d.content)) (called sys (read wanted) d)
        (sys.read_stops (read wanted ∷ d.trace)) (length-take-le wanted _) (traced (read wanted) h)

  -- A seek that succeeds gives the room back.
  abbrev Sought : ℕ → ℕ → Option Err × Disk → Type 0
  Sought n k (none, d) = In (n + k) d
  Sought n k (some e, d) = In k d

  seek_back_by-In : (n k : ℕ) (d : Disk) → In k d → Sought n k (seek_back_by sys n d)
  unfolding seek_back_by
  seek_back_by-In n k d h = elim (Bool-cases (sys.fails (seek_back n ∷ d.trace))) [
    | inl e ↦ rw e (traced (seek_back n) h)
    | inr e ↦ rw e (elim (Bool-cases (ltb d.pos n)) [
      | inl early ↦ rw early (traced (seek_back n) h)
      | inr late ↦ rw late (record { kept = h.kept; fits = let f = h.fits in ground arith })
    ])
  ]

  flushed-In :
      (e : Option Err) (n k : ℕ) (fw : FlushingWriter)
      → In k fw.block_device
      → In k (flushed sys e n fw).after.block_device
  unfolding Flushing.sync sync_file
  flushed-In (some e) n k fw h = h
  flushed-In none n k fw h =
      elim (Bool-cases (leb fw.flush_interval_bytes fw.unflushed_bytes_written)) [
        | inl e ↦ rw e (traced sync h)
        | inr e ↦ rw e h
      ]

  flushing_write-In :
      (p : List ℕ) (k : ℕ) (fw : FlushingWriter)
      → In (length p + k) fw.block_device
      → In k (Flushing.write sys p fw).after.block_device
  unfolding Flushing.write
  flushing_write-In p k fw h =
      let r = write_file sys p fw.block_device in
      flushed-In r.error r.result k
        (record fw {
          block_device = r.after;
          unflushed_bytes_written = (fw.unflushed_bytes_written + r.result) % 2 ^ 64;
        })
        (write_file-In p k fw.block_device h)

  after_seek-In :
      (b : List ℕ) (k : ℕ) (bd : OptimizedBlockDeviceWriter) (r : Option Err × Disk)
      → Sought (length b) k r
      → In k (Optimized.disk_of (after_seek sys b bd r).after)
  after_seek-In b k bd (some e, d) h = h
  after_seek-In b k bd (none, d) h =
      flushing_write-In b k (record bd.block_device { block_device = d }) h

  after_read-In :
      (b : List ℕ) (k : ℕ) (bd : OptimizedBlockDeviceWriter) (e : Option Err) (bytes : List ℕ)
      → In k (Optimized.disk_of bd)
      → In k (Optimized.disk_of (after_read sys b bd e bytes).after)
  unfolding write_dirty
  after_read-In b k bd (some e) bytes h = h
  after_read-In b k bd none bytes h = elim (Bool-cases (equal_bytes bytes b)) [
    | inl e ↦ rw e h
    | inr e ↦ rw e (
        after_seek-In b k bd (seek_back_by sys (length b) (Optimized.disk_of bd))
          (seek_back_by-In (length b) k (Optimized.disk_of bd) h))
  ]

  pub optimized_write-In :
      (b : List ℕ) (k : ℕ) (bd : OptimizedBlockDeviceWriter)
      → In (length b + k) (Optimized.disk_of bd)
      → In k (Optimized.disk_of (Optimized.write sys b bd).after)
  unfolding Optimized.write
  optimized_write-In b k bd h =
      let r = read_full sys (length b) (Optimized.disk_of bd) in
      after_read-In b k (Optimized.with_disk bd r.after) r.error r.result
        (read_full-In (length b) k (Optimized.disk_of bd) h)

  go_on-In :
      (k : ℕ) (e : Option Err) (bw : BlockFrameWriter) (rest : Option Err × BlockFrameWriter)
      → In (length bw.buf + k) (Optimized.disk_of bw.w)
      → In (length rest.1.buf + k) (Optimized.disk_of rest.1.w)
      → In (length (go_on e bw rest).1.buf + k) (Optimized.disk_of (go_on e bw rest).1.w)
  go_on-In k (some e) bw rest h later = h
  go_on-In k none bw rest h later = later

  split_length : (n : ℕ) (xs : List ℕ) → length (take n xs) + length (drop n xs) ≡ length xs
  split_length n xs =
      flip (length-append (take n xs) (drop n xs)) ∙ ap (λ t. length t) (take-append-drop n xs)

  write_frames-In :
      (n k : ℕ) (bw : BlockFrameWriter)
      → In (length bw.buf + k) (Optimized.disk_of bw.w)
      → let r = write_frames sys n bw in In (length r.1.buf + k) (Optimized.disk_of r.1.w)
  unfolding write_frames
  write_frames-In zero k bw h = h
  write_frames-In (suc n) k bw h =
      let r = Optimized.write sys (take bw.frame_size bw.buf) bw.w in
      let bw' : BlockFrameWriter = record bw { buf = drop bw.frame_size bw.buf; w = r.after } in
      let one =
        optimized_write-In (take bw.frame_size bw.buf) (length (drop bw.frame_size bw.buf) + k) bw.w
          (weaken-In _ _ _ (omega (arith, split_length bw.frame_size bw.buf)) h) in
      go_on-In k r.error bw' (write_frames sys n bw') one (write_frames-In n k bw' one)

  written-In :
      (n k : ℕ) (r : Option Err × BlockFrameWriter)
      → In (length r.1.buf + k) (Optimized.disk_of r.1.w)
      → let r' = (written n r).after in In (length r'.buf + k) (Optimized.disk_of r'.w)
  written-In n k (none, bw) h = h
  written-In n k (some e, bw) h = h

  pub framed_write-In :
      (b : List ℕ) (k : ℕ) (bw : BlockFrameWriter)
      → In (length b + (length bw.buf + k)) (Optimized.disk_of bw.w)
      → let r = (Framed.write sys b bw).after in In (length r.buf + k) (Optimized.disk_of r.w)
  unfolding Framed.write
  framed_write-In b k bw h =
      let held : In (length (bw.buf ++ b) + k) (Optimized.disk_of bw.w) =
        weaken-In _ _ _ (omega (arith, length-append bw.buf b)) h in
      elim (Bool-cases (ltb (length (bw.buf ++ b)) bw.frame_size)) [
        | inl e ↦ rw e held
        | inr e ↦ rw e (
            let frames = length (bw.buf ++ b) / bw.frame_size in
            let bw' : BlockFrameWriter = record bw { buf = bw.buf ++ b } in
            written-In (length b) k (write_frames sys frames bw')
              (write_frames-In frames k bw' held))
      ]
