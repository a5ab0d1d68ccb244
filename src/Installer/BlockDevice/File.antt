-- ===== src/Installer/BlockDevice/File.antt =====
-- What installer/block_device.go calls: the file of a block device, with its content and position.
use ota_pulse.Prelude.{
  ℕ, ◌+◌, ◌-◌, Bool, Option, none, some, List, [], ◌∷◌, ltb, ◌==◌, if◌then◌else◌, length,
}
use ota_pulse.Prelude.Segments.{take, drop, overwrite}

pub data Call : Type 0 where
  unmount open_for_query get_size get_sector_size open_for_writing sync close : Call
  set_ubi_update_volume read seek_back : ℕ → Call
  write : List ℕ → Call

-- io.EOF, io.ErrUnexpectedEOF, ENOSPC, io.ErrShortWrite, and any other error.
pub data Err : Type 0 where
  eof unexpected_eof no_space short_write other : Err

-- One block device, and what the system answers, given the calls so far. A read or a write that fails
-- stops after the number of bytes that is given.
pub record System : Type 0 where
  pub is_mounted : Bool
  pub is_ubi : Bool
  pub fails : List Call → Bool
  pub size : List Call → Option ℕ
  pub sector_size : List Call → Option ℕ
  pub read_stops : List Call → Option ℕ
  pub write_stops : List Call → Option ℕ

pub record Disk : Type 0 where
  pub trace : List Call
  pub content : List ℕ
  pub pos : ℕ

-- Of a reader or a writer: the bytes or their number, the error, and the object after it.
pub record Did (R W : Type 0) : Type 0 where
  pub result : R
  pub error : Option Err
  pub after : W

abbrev pub did : {R W : Type 0} → R → Option Err → W → Did R W
did r e w = record { result = r; error = e; after = w }

abbrev pub first_error : Option Err → Option Err → Option Err
first_error none e = e
first_error (some e) _ = some e

abbrev pub failing : Bool → Option Err
failing b = if b then some Err.other else none

-- The error of io.ReadFull where no read fails, for the number of bytes wanted and those read.
abbrev pub end_of_file : ℕ → List ℕ → Option Err
end_of_file wanted [] = if wanted == 0 then none else some Err.eof
end_of_file wanted (b ∷ bs) = if length (b ∷ bs) == wanted then none else some Err.unexpected_eof

module _ (sys : System) where
  abbrev pub called : Call → Disk → Disk
  called c d = record d { trace = c ∷ d.trace }

  abbrev pub read_part : Disk → List ℕ → Option Err → Did (List ℕ) Disk
  read_part d bytes e = record {
    result = bytes;
    error = e;
    after = record d { pos = d.pos + length bytes };
  }

  abbrev pub answer_read : ℕ → List ℕ → Disk → Option ℕ → Did (List ℕ) Disk
  answer_read wanted bytes d none = read_part d bytes (end_of_file wanted bytes)
  answer_read wanted bytes d (some n) = read_part d (take n bytes) (some Err.other)

  -- io.ReadFull
  unfoldable pub read_full : ℕ → Disk → Did (List ℕ) Disk
  read_full wanted d =
      let d' = called (read wanted) d in
      let bytes = take wanted (drop d.pos d.content) in
      answer_read wanted bytes d' (sys.read_stops d'.trace)

  -- Seek from the current position; one before the start is an error.
  unfoldable pub seek_back_by : ℕ → Disk → Option Err × Disk
  seek_back_by n d =
      let d' = called (seek_back n) d in
      if sys.fails d'.trace
      then (some Err.other, d')
      else if ltb d.pos n
      then (some Err.other, d')
      else (none, record d' { pos = d.pos - n })

  abbrev pub write_part : Disk → List ℕ → Option Err → Did ℕ Disk
  write_part d bytes e = record {
    result = length bytes;
    error = e;
    after = record d { content = overwrite d.pos bytes d.content; pos = d.pos + length bytes };
  }

  abbrev pub answer_write : ℕ → List ℕ → Disk → Option ℕ → Did ℕ Disk
  answer_write wanted fits d none =
      write_part d fits (if length fits == wanted then none else some Err.no_space)
  answer_write wanted fits d (some n) = write_part d (take n fits) (some Err.other)

  -- A device has no bytes behind its end.
  unfoldable pub write_file : List ℕ → Disk → Did ℕ Disk
  write_file p d =
      let d' = called (write p) d in
      let fits = take (length d.content - d.pos) p in
      answer_write (length p) fits d' (sys.write_stops d'.trace)

  unfoldable pub sync_file : Disk → Option Err × Disk
  sync_file d = let d' = called sync d in (failing (sys.fails d'.trace), d')

  unfoldable pub close_file : Disk → Option Err × Disk
  close_file d = let d' = called close d in (failing (sys.fails d'.trace), d')
