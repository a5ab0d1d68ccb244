-- ===== src/Installer/BlockDevice/Bounded/Stores.antt =====
-- installer/block_device.go: the limited writer, the copy of an image, and `StoreUpdate`, whatever
-- fails.
use ota_pulse.Prelude.{
  ℕ, ◌+◌, ◌-◌, ◌%◌, ◌^◌, ◌<◌, ◌≡◌, refl, Bool, true, false, Option, none, some, List, [], ◌∷◌, ◌++◌,
  ◌/◌, ltb, ◌==◌, arith, if◌then◌else◌, length, Bool-cases, inl, inr,
}
use ota_pulse.Prelude.Segments.{take, length-take_of_le}
use ota_pulse.Installer.BlockDevice.{copied, copy}
use ota_pulse.Installer.BlockDevice.File.{
  Err, System, Disk, Did, did, first_error, write_file, close_file, called, sync_file, answer_write,
  write,
}
use ota_pulse.Installer.BlockDevice.Flushing
use ota_pulse.Installer.BlockDevice.Optimized
use ota_pulse.Installer.BlockDevice.Framed
use ota_pulse.Installer.BlockDevice.Framed.{BlockFrameWriter, written, write_frames}
use ota_pulse.Installer.BlockDevice.Limited
use ota_pulse.Installer.BlockDevice.Limited.{
  Sink, framed, raw, LimitedWriteCloser, sink_write, sink_close, disk_of,
}
use ota_pulse.Installer.BlockDevice.Bounded.{
  Within, weaken-In, traced, write_file-In, framed_write-In, optimized_write-In,
}

-- The bytes that a sink has not yet written.
abbrev pub pending : Sink → ℕ
pending (framed bw) = length bw.buf
pending (raw d) = 0

written-result :
    (n : ℕ) (r : Option Err × BlockFrameWriter)
    → (written n r).error ≡ none
    → (written n r).result ≡ n
written-result n (none, bw) h = refl
written-result n (some e, bw) h = ground arith

either-result :
    (b : Bool) (n : ℕ) (bw : BlockFrameWriter) (r : Option Err × BlockFrameWriter)
    → (if b then did n none bw else written n r).error ≡ none
    → (if b then did n none bw else written n r).result ≡ n
either-result true n bw r h = refl
either-result false n bw r h = written-result n r h

module _ (sys : System) where
  -- A write without an error has written all.
  framed_write-result :
      (b : List ℕ) (bw : BlockFrameWriter)
      → (Framed.write sys b bw).error ≡ none
      → (Framed.write sys b bw).result ≡ length b
  unfolding Framed.write
  framed_write-result b bw h =
      let held : BlockFrameWriter = record bw { buf = bw.buf ++ b } in
      either-result (ltb (length held.buf) held.frame_size) (length b) held
        (write_frames sys (length held.buf / held.frame_size) held) h

  answer_write-result :
      (wanted : ℕ) (fits : List ℕ) (d : Disk) (o : Option ℕ)
      → (answer_write sys wanted fits d o).error ≡ none
      → (answer_write sys wanted fits d o).result ≡ wanted
  answer_write-result wanted fits d none h = ground arith
  answer_write-result wanted fits d (some n) h = ground arith

  write_file-result :
      (b : List ℕ) (d : Disk)
      → (write_file sys b d).error ≡ none
      → (write_file sys b d).result ≡ length b
  unfolding write_file
  write_file-result b d h =
      answer_write-result (length b) (take (length d.content - d.pos) b) (called sys (write b) d)
        (sys.write_stops (write b ∷ d.trace)) h

  pub sink_write-result :
      (b : List ℕ) (w : Sink)
      → (sink_write sys b w).error ≡ none
      → (sink_write sys b w).result ≡ length b
  unfolding sink_write
  sink_write-result b (framed bw) h = framed_write-result b bw h
  sink_write-result b (raw d) h = write_file-result b d h

  module _ (limit : ℕ) (old : List ℕ) where
    sink_write-In :
        (b : List ℕ) (k : ℕ) (w : Sink)
        → Within limit old (length b + (pending w + k)) (disk_of w)
        → let w' = (sink_write sys b w).after in Within limit old (pending w' + k) (disk_of w')
    unfolding sink_write
    sink_write-In b k (framed bw) h = framed_write-In sys limit old b k bw h
    sink_write-In b k (raw d) h =
        let r = write_file-In sys limit old b k d (weaken-In sys limit old _ _ d (omega arith) h) in
        weaken-In sys limit old _ _ _ (omega arith) r

    -- What becomes of the limited writer: as long as there is no error, its limit has room.
    abbrev pub Fits : Option Err → LimitedWriteCloser → Type 0
    Fits none lw = Within limit old (pending lw.w + lw.n) (disk_of lw.w) × (lw.n < 2 ^ 64)
    Fits (some e) lw = Within limit old (pending lw.w) (disk_of lw.w)

    after_write-Fits :
        (r : Did ℕ Sink) (e : Option Err) (wanted k n : ℕ)
        → (e ≡ none → r.result ≡ wanted)
        → n ≡ wanted + k
        → n < 2 ^ 64
        → Within limit old (pending r.after + k) (disk_of r.after)
        → Fits e (record { w = r.after; n = (n + 2 ^ 64 - r.result) % 2 ^ 64 })
    after_write-Fits r none wanted k n full split small h =
        let e = full refl in (weaken-In sys limit old _ _ _ (omega arith) h, omega arith)
    after_write-Fits r (some e) wanted k n full split small h =
        weaken-In sys limit old _ _ _ (omega arith) h

    limited-Fits :
        (e : Option Err) (lw : LimitedWriteCloser) → Fits e lw → Fits (first_error e none) lw
    limited-Fits none lw h = h
    limited-Fits (some e) lw h = h

    cut-Fits :
        (e : Option Err) (x : Err) (lw : LimitedWriteCloser)
        → Within limit old (pending lw.w) (disk_of lw.w)
        → Fits (first_error e (some x)) lw
    cut-Fits none x lw h = h
    cut-Fits (some e) x lw h = h

    write-Fits :
        (p : List ℕ) (lw : LimitedWriteCloser)
        → Fits none lw
        → Fits (Limited.write sys p lw).error (Limited.write sys p lw).after
    unfolding Limited.write
    write-Fits p lw (h, small) = elim (Bool-cases (ltb lw.n (length p))) [
      | inl long ↦
          let cut = length-take_of_le lw.n p (ground arith) in
          let wrote =
            sink_write-In (take lw.n p) 0 lw.w
              (weaken-In sys limit old _ _ _ (omega (arith, cut)) h) in
          rw long (
            cut-Fits (sink_write sys (take lw.n p) lw.w).error Err.no_space _
              (weaken-In sys limit old _ _ _ (omega arith) wrote))
      | inr short ↦
          let k = lw.n - length p in
          let split : lw.n ≡ length p + k = ground arith in
          let r = sink_write sys p lw.w in
          let wrote = sink_write-In p k lw.w (weaken-In sys limit old _ _ _ (omega arith) h) in
          rw short (
            limited-Fits r.error (record { w = r.after; n = (lw.n + 2 ^ 64 - r.result) % 2 ^ 64 })
              (after_write-Fits r r.error (length p) k lw.n (sink_write-result p lw.w) split small
                wrote))
    ]

    Fits-pending :
        (e : Option Err) (lw : LimitedWriteCloser)
        → Fits e lw
        → Within limit old (pending lw.w) (disk_of lw.w)
    Fits-pending none lw h = weaken-In sys limit old _ _ _ (omega arith) h.0
    Fits-pending (some e) lw h = h

    copied-In :
        (r : Did ℕ LimitedWriteCloser) (wanted : ℕ)
        (rest : LimitedWriteCloser → Option Err × LimitedWriteCloser) (e : Option Err)
        → Fits e r.after
        → (Fits none r.after
            → Within limit old (pending (rest r.after).1.w) (disk_of (rest r.after).1.w))
        → let lw = (copied sys r wanted rest e).1 in Within limit old (pending lw.w) (disk_of lw.w)
    copied-In r wanted rest (some e) h later = h
    copied-In r wanted rest none h later = elim (Bool-cases (r.result == wanted)) [
      | inl e ↦ rw e (later h)
      | inr e ↦ rw e (Fits-pending none r.after h)
    ]

    pub copy-In :
        (image : List (List ℕ)) (image_fails : Bool) (lw : LimitedWriteCloser)
        → Fits none lw
        → let lw' = (copy sys image image_fails lw).1 in
          Within limit old (pending lw'.w) (disk_of lw'.w)
    unfolding copy
    copy-In [] image_fails lw h = Fits-pending none lw h
    copy-In (p ∷ ps) image_fails lw h =
        let r = Limited.write sys p lw in
        copied-In r (length p) (copy sys ps image_fails) r.error (write-Fits p lw h)
          (λ ready. copy-In ps image_fails r.after ready)

    pub close-In :
        (w : Sink)
        → Within limit old (pending w) (disk_of w)
        → Within limit old 0 (disk_of (sink_close sys w).1)
    unfolding sink_close Framed.close Optimized.close Flushing.close Flushing.sync sync_file
        close_file
    close-In (framed bw) h =
        let wrote =
          optimized_write-In sys limit old bw.buf 0 bw.w
            (weaken-In sys limit old _ _ _ (omega arith) h) in
        traced sys limit old _ (traced sys limit old _ wrote)
    close-In (raw d) h = traced sys limit old _ h
