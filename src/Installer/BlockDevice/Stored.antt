-- ===== src/Installer/BlockDevice/Stored.antt =====
-- installer/block_device.go: a write without an error leaves the bytes on the device.
mod OnDisk
mod Frames
mod Updates
pub mod Image
use mathlib.Core.Path.{subst}
use mathlib.Core.List.{append_assoc}
use ota_pulse.Prelude.{
  ℕ, zero, suc, ◌+◌, ◌-◌, ◌/◌, ◌%◌, ◌^◌, ◌≤◌, ◌<◌, ◌≡◌, refl, sym as flip, ap, ◌∙◌, inl, inr, Bool,
  true, false, Option, none, some, List, [], ◌∷◌, ◌++◌, ltb, leb, ◌==◌, arith, if◌then◌else◌,
  length, Bool-cases,
}
use ota_pulse.Prelude.Segments.{
  take, drop, overwrite, equal_bytes, equal_bytes-eq, length-take_of_le, length-append, length-drop,
  take-append-drop, take_all, drop-append, drop-drop, overwrite-append,
}
use ota_pulse.Installer.BlockDevice.File.{
  Call, read, write, seek_back, sync, Err, System, Disk, Did, did, failing, end_of_file, read_full,
  answer_read, seek_back_by, write_file, write_part, answer_write, called, sync_file,
}
use ota_pulse.Installer.BlockDevice.Succeeds.{Good, Good-error, Good-full, Good-failing}
use ota_pulse.Installer.BlockDevice.Flushing
use ota_pulse.Installer.BlockDevice.Flushing.{FlushingWriter, flushed}
use ota_pulse.Installer.BlockDevice.Optimized
use ota_pulse.Installer.BlockDevice.Optimized.{
  OptimizedBlockDeviceWriter, write_dirty, after_seek, after_read,
}
use ota_pulse.Installer.BlockDevice.Stored.OnDisk.{
  At, Room, traced, past, write_file-At, HasRead, read_full-HasRead, seek_back_by-At, Sought,
}

module _ (sys : System) (old : List ℕ) where
  flushed-At :
      (e : Option Err) (n : ℕ) (before : List ℕ) (fw : FlushingWriter)
      → Good e (At old before fw.block_device)
      → let r = flushed sys e n fw in Good r.error (At old before r.after.block_device)
  unfolding Flushing.sync sync_file
  flushed-At (some e) n before fw h = h
  flushed-At none n before fw h =
      elim (Bool-cases (leb fw.flush_interval_bytes fw.unflushed_bytes_written)) [
        | inl e ↦
            rw e (Good-failing (sys.fails (sync ∷ fw.block_device.trace)) (traced sys old sync h))
        | inr e ↦ rw e h
      ]

  flushing_write-At :
      (before b : List ℕ) (fw : FlushingWriter)
      → Room sys old before b
      → At old before fw.block_device
      → let r = Flushing.write sys b fw in Good r.error (At old (before ++ b) r.after.block_device)
  unfolding Flushing.write
  flushing_write-At before b fw room h =
      let r = write_file sys b fw.block_device in
      flushed-At r.error r.result (before ++ b)
        (record fw {
          block_device = r.after;
          unflushed_bytes_written = (fw.unflushed_bytes_written + r.result) % 2 ^ 64;
        })
        (write_file-At sys old before b fw.block_device room h)

  after_seek-At :
      (before b : List ℕ) (bd : OptimizedBlockDeviceWriter) (r : Option Err × Disk)
      → Room sys old before b
      → Sought sys old before r
      → let s = after_seek sys b bd r in
        Good s.error (At old (before ++ b) (Optimized.disk_of s.after))
  after_seek-At before b bd (some e, d) room h = Good-error _ _ e h
  after_seek-At before b bd (none, d) room h =
      flushing_write-At before b (record bd.block_device { block_device = d }) room h

  -- A clean frame is what should have been written.
  clean-At : (before b : List ℕ) (d : Disk) → HasRead sys old before b d → At old (before ++ b) d
  clean-At before b d h =
      let rest = drop (length before) old in
      record {
        content =
            h.content
            ∙ ap (λ t. before ++ t) (flip (take-append-drop (length b) rest))
            ∙ ap (λ t. before ++ (t ++ drop (length b) rest)) (flip h.bytes_read)
            ∙ flip (append_assoc before b (drop (length b) rest))
            ∙ ap (λ t. (before ++ b) ++ t) (past sys old before b);
        place = h.place ∙ flip (length-append before b);
      }

  after_read-At :
      (before b : List ℕ) (bd : OptimizedBlockDeviceWriter) (e : Option Err) (bytes : List ℕ)
      → Room sys old before b
      → Good e (HasRead sys old before bytes (Optimized.disk_of bd) × (length bytes ≡ length b))
      → let s = after_read sys b bd e bytes in
        Good s.error (At old (before ++ b) (Optimized.disk_of s.after))
  unfolding write_dirty
  after_read-At before b bd (some e) bytes room h = Good-error _ _ e h
  after_read-At before b bd none bytes room h = elim (Bool-cases (equal_bytes bytes b)) [
    | inl e ↦
        let same = equal_bytes-eq bytes b e in
        rw e (
          clean-At before b (Optimized.disk_of bd)
            (subst (λ t. HasRead sys old before t (Optimized.disk_of bd)) same h.0))
    | inr e ↦
        let d = Optimized.disk_of bd in
        rw e (
          after_seek-At before b bd (seek_back_by sys (length b) d) room
            (seek_back_by-At sys old before bytes (length b) d (flip h.1) h.0))
  ]

  pub optimized_write-At :
      (before b : List ℕ) (bd : OptimizedBlockDeviceWriter)
      → Room sys old before b
      → At old before (Optimized.disk_of bd)
      → let s = Optimized.write sys b bd in
        Good s.error (At old (before ++ b) (Optimized.disk_of s.after))
  unfolding Optimized.write
  optimized_write-At before b bd room h =
      let r = read_full sys (length b) (Optimized.disk_of bd) in
      after_read-At before b (Optimized.with_disk bd r.after) r.error r.result room
        (read_full-HasRead sys old before b (Optimized.disk_of bd) room h)
