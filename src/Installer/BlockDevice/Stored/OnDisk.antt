-- ===== src/Installer/BlockDevice/Stored/OnDisk.antt =====
-- installer/block_device.go: the calls of the file of the device, where no error is met.
use mathlib.Core.List.{append_assoc}
use ota_pulse.Prelude.{
  ℕ, ◌+◌, ◌-◌, ◌≤◌, ◌≡◌, sym as flip, ap, ◌∙◌, inl, inr, Option, none, some, List, [], ◌∷◌, ◌++◌,
  ltb, ◌==◌, arith, length, Bool-cases,
}
use ota_pulse.Prelude.Segments.{
  take, drop, overwrite, length-take_of_le, length-append, length-drop, take_all, drop-append,
  drop-drop, overwrite-append,
}
use ota_pulse.Installer.BlockDevice.File.{
  Call, read, write, seek_back, Err, System, Disk, end_of_file, read_full, answer_read,
  seek_back_by, write_file, write_part, answer_write, called,
}
use ota_pulse.Installer.BlockDevice.Succeeds.{Good, Good-full}

-- The first bytes of the old content are replaced, and the position is behind them.
pub record At (old before : List ℕ) (d : Disk) : Type 0 where
  pub content : d.content ≡ before ++ drop (length before) old
  pub place : d.pos ≡ length before

module _ (sys : System) (old : List ℕ) where
  -- The bytes have room on the device.
  abbrev pub Room : List ℕ → List ℕ → Type 0
  Room before b = length before + length b ≤ length old

  pub traced :
      (c : Call) {before : List ℕ} {d : Disk} → At old before d → At old before (called sys c d)
  traced c h = record { content = h.content; place = h.place }

  pub past :
      (before b : List ℕ)
      → drop (length b) (drop (length before) old) ≡ drop (length (before ++ b)) old
  past before b =
      drop-drop (length b) (length before) old
      ∙ ap (λ (k : ℕ). drop k old) (flip (length-append before b))

  write_part-At :
      (before b : List ℕ) (d : Disk)
      → Room before b
      → At old before d
      → At old (before ++ b) (write_part sys d b none).after
  write_part-At before b d room h =
      let rest = drop (length before) old in
      let fits : length b ≤ length rest = omega (arith, length-drop (length before) old) in
      record {
        content =
            ap (λ t. overwrite t b d.content) h.place
            ∙ ap (overwrite (length before) b) h.content
            ∙ overwrite-append before b rest fits
            ∙ flip (append_assoc before b (drop (length b) rest))
            ∙ ap (λ t. (before ++ b) ++ t) (past before b);
        place = let p = h.place in omega (arith, length-append before b);
      }

  length-content :
      (before : List ℕ) (d : Disk)
      → length before ≤ length old
      → At old before d
      → length d.content ≡ length old
  length-content before d le h =
      ap (λ t. length t) h.content
      ∙ length-append before (drop (length before) old)
      ∙ omega (arith, length-drop (length before) old)

  answer_write-At :
      (before b : List ℕ) (d : Disk) (o : Option ℕ)
      → Room before b
      → At old before d
      → let r = answer_write sys (length b) b d o in Good r.error (At old (before ++ b) r.after)
  answer_write-At before b d none room h =
      Good-full (length b == length b) (write_part-At before b d room h)
  answer_write-At before b d (some n) room h = tt

  pub write_file-At :
      (before b : List ℕ) (d : Disk)
      → Room before b
      → At old before d
      → let r = write_file sys b d in Good r.error (At old (before ++ b) r.after)
  unfolding write_file
  write_file-At before b d room h =
      let all =
        take_all (length d.content - d.pos) b
          (let p = h.place in omega (arith, length-content before d (omega arith) h)) in
      rw all (
        answer_write-At before b (called sys (write b) d) (sys.write_stops (write b ∷ d.trace)) room
          (traced (write b) h))

  -- A frame that was read, from where it stands.
  pub record HasRead (before bytes : List ℕ) (d : Disk) : Type 0 where
    pub content : d.content ≡ before ++ drop (length before) old
    pub place : d.pos ≡ length before + length bytes
    pub bytes_read : bytes ≡ take (length bytes) (drop (length before) old)

  end_of_file-full :
      (wanted : ℕ) (bytes : List ℕ) → length bytes ≡ wanted → end_of_file wanted bytes ≡ none
  end_of_file-full wanted [] h = ground arith
  end_of_file-full wanted (b ∷ bytes) h = ground arith

  pub read_full-HasRead :
      (before b : List ℕ) (d : Disk)
      → Room before b
      → At old before d
      → let r = read_full sys (length b) d in
        Good r.error (HasRead before r.result r.after × (length r.result ≡ length b))
  unfolding read_full
  read_full-HasRead before b d room h =
      let rest = drop (length before) old in
      let at_rest : drop d.pos d.content ≡ rest =
        ap (λ t. drop t d.content) h.place
        ∙ ap (drop (length before)) h.content
        ∙ drop-append before rest in
      let full =
        length-take_of_le (length b) rest (omega (arith, length-drop (length before) old)) in
      rw at_rest (
        answered (take (length b) rest) (sys.read_stops (read (length b) ∷ d.trace)) full
          (ap (λ (k : ℕ). take k rest) (flip full)))
    where
      answered :
          (bytes : List ℕ) (o : Option ℕ)
          → length bytes ≡ length b
          → bytes ≡ take (length bytes) (drop (length before) old)
          → let r = answer_read sys (length b) bytes (called sys (read (length b)) d) o in
            Good r.error (HasRead before r.result r.after × (length r.result ≡ length b))
      answered bytes none full e = rw (end_of_file-full (length b) bytes full) (
        record {
          content = h.content;
          place = ap (λ (k : ℕ). k + length bytes) h.place;
          bytes_read = e;
        },
        full,
      )
      answered bytes (some n) full e = tt

  abbrev pub Sought : List ℕ → Option Err × Disk → Type 0
  Sought before r = Good r.0 (At old before r.1)

  pub seek_back_by-At :
      (before bytes : List ℕ) (n : ℕ) (d : Disk)
      → n ≡ length bytes
      → HasRead before bytes d
      → Sought before (seek_back_by sys n d)
  unfolding seek_back_by
  seek_back_by-At before bytes n d len h = elim (Bool-cases (sys.fails (seek_back n ∷ d.trace))) [
    | inl e ↦ rw e tt
    | inr e ↦ rw e (elim (Bool-cases (ltb d.pos n)) [
      | inl early ↦ rw early tt
      | inr late ↦ rw late (record { content = h.content; place = let p = h.place in omega arith })
    ])
  ]
