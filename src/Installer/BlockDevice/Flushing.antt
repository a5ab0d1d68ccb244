-- ===== src/Installer/BlockDevice/Flushing.antt =====
-- installer/block_device.go `FlushingWriter`: calls Sync when enough bytes have been written.
use ota_pulse.Prelude.{ℕ, ◌+◌, ◌%◌, ◌^◌, Option, none, some, List, leb, if◌then◌else◌}
use ota_pulse.Installer.BlockDevice.File.{
  Err, System, Disk, Did, did, first_error, write_file, sync_file, close_file,
}

pub record FlushingWriter : Type 0 where
  pub block_device : Disk
  pub flush_interval_bytes : ℕ
  pub unflushed_bytes_written : ℕ

module _ (sys : System) where
  unfoldable pub sync : FlushingWriter → Option Err × FlushingWriter
  sync fw =
      let (e, d) = sync_file sys fw.block_device in
      (e, record fw { block_device = d; unflushed_bytes_written = 0 })

  -- After a write: an error of it, or that of a call of Sync that is due.
  abbrev pub flushed : Option Err → ℕ → FlushingWriter → Did ℕ FlushingWriter
  flushed (some e) n fw = did n (some e) fw
  flushed none n fw =
      if leb fw.flush_interval_bytes fw.unflushed_bytes_written
      then did n (sync fw).0 (sync fw).1
      else did n none fw

  -- The counter is a uint64.
  unfoldable pub write : List ℕ → FlushingWriter → Did ℕ FlushingWriter
  unfolding sync
  write p fw =
      let r = write_file sys p fw.block_device in
      flushed r.error r.result (record fw {
        block_device = r.after;
        unflushed_bytes_written = (fw.unflushed_bytes_written + r.result) % 2 ^ 64;
      })

  -- Both are done, and the first error is returned.
  unfoldable pub close : FlushingWriter → Option Err × FlushingWriter
  unfolding sync
  close fw =
      let (sync_err, fw') = sync fw in
      let (close_err, d) = close_file sys fw'.block_device in
      (first_error sync_err close_err, record fw' { block_device = d })
