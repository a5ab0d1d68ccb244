-- ===== src/Installer/BlockDevice.antt =====
-- installer/block_device.go: opening a block device for an update, and, of dual_rootfs_device.go,
-- `StoreUpdate`, which copies an image to it.
pub mod File
pub mod Flushing
pub mod Optimized
pub mod Framed
pub mod Limited
mod Succeeds
pub mod Bounded
pub mod Stored
pub mod Chunks
use ota_pulse.Prelude.{
  ℕ, zero, suc, ◌*◌, ◌^◌, Bool, true, false, Option, none, some, List, [], ◌∷◌, ltb, ◌==◌,
  if◌then◌else◌, length,
}
use ota_pulse.Prelude.Int.{ℤ, pos, negsuc}
use ota_pulse.Installer.BlockDevice.File.{
  Call, unmount, open_for_query, get_size, get_sector_size, open_for_writing, set_ubi_update_volume,
  Err, System, Disk, Did, did, first_error, called,
}
use ota_pulse.Installer.BlockDevice.Limited
use ota_pulse.Installer.BlockDevice.Limited.{Sink, framed, raw, disk_of, LimitedWriteCloser}

-- The loop that looks for a multiple of the sector size of about 1 MiB.
unfoldable pub double_to_chunk : ℕ → ℕ → ℕ
double_to_chunk zero size = size
double_to_chunk (suc fuel) size =
    let more = double_to_chunk fuel (size * 2) in if ltb size (2 ^ 20) then more else size

unfoldable pub chunk_size_for : ℕ → ℕ
unfolding double_to_chunk
chunk_size_for sector = double_to_chunk 20 sector

module _ (sys : System) where
  -- `Size` and `SectorSize`, whose error is none of those that are compared.
  unfoldable pub query : Call → (List Call → Option ℕ) → Disk → Option ℕ × Disk
  query c answer d =
      let opened = called sys open_for_query d in
      let asked = called sys c opened in
      if sys.fails opened.trace then (none, opened) else (answer asked.trace, asked)

  -- The writers over a device that is open.
  unfoldable pub chain : ℕ → ℕ → ℕ → Disk → LimitedWriteCloser
  chain sector chunk size d = record {
    w =
        if sys.is_ubi
        then raw d
        else framed (record {
          buf = [];
          frame_size = chunk;
          w = record {
            block_device = record {
              block_device = d;
              flush_interval_bytes = sector;
              unflushed_bytes_written = 0;
            };
            total_frames = 0;
            dirty_frames = 0;
          };
        });
    n = size;
  }

  abbrev pub opened_with : ℕ → ℕ → Disk → Did (Option LimitedWriteCloser) Disk
  opened_with sector size d = did (some (chain sector (chunk_size_for sector) size d)) none d

  -- A file that is opened stands at its start; a UBI volume is told the size of the update. What the
  -- system then does to the volume is no part of the model.
  unfoldable pub open_file : ℕ → ℕ → Disk → Did (Option LimitedWriteCloser) Disk
  open_file sector size d =
      let opened = called sys open_for_writing (record d { pos = 0 }) in
      let told = called sys (set_ubi_update_volume size) opened in
      if sys.fails opened.trace
      then did none (some Err.other) opened
      else if sys.is_ubi
      then (if sys.fails told.trace
          then did none (some Err.other) told
          else opened_with sector size told)
      else opened_with sector size opened

  abbrev pub after_sector : ℕ → Option ℕ × Disk → Did (Option LimitedWriteCloser) Disk
  after_sector size (none, d) = did none (some Err.other) d
  after_sector size (some sector, d) = open_file sector size d

  abbrev pub after_size : ℕ → Option ℕ × Disk → Did (Option LimitedWriteCloser) Disk
  after_size size (none, d) = did none (some Err.other) d
  after_size size (some bsz, d) =
      if ltb bsz size
      then did none (some Err.no_space) d
      else after_sector size (query get_sector_size sys.sector_size d)

  -- `Open`; the device is first unmounted, if it is mounted.
  unfoldable pub open_sized : ℕ → Disk → Did (Option LimitedWriteCloser) Disk
  unfolding query
  open_sized size d =
      let unmounted = called sys unmount d in
      if sys.is_mounted
      then (if sys.fails unmounted.trace
          then did none (some Err.other) unmounted
          else after_size size (query get_size sys.size unmounted))
      else after_size size (query get_size sys.size d)

  unfoldable pub open_device : ℤ → Disk → Did (Option LimitedWriteCloser) Disk
  unfolding open_sized
  open_device (negsuc n) d = did none (some Err.other) d
  open_device (pos n) d = open_sized n d

  abbrev pub copied :
      Did ℕ LimitedWriteCloser
      → ℕ
      → (LimitedWriteCloser → Option Err × LimitedWriteCloser)
      → Option Err
      → Option Err × LimitedWriteCloser
  copied r wanted rest (some e) = (some e, r.after)
  copied r wanted rest none =
      if r.result == wanted then rest r.after else (some Err.short_write, r.after)

  -- io.Copy from an image that comes in pieces and may end with an error: the error of either side.
  unfoldable pub copy : List (List ℕ) → Bool → LimitedWriteCloser → Option Err × LimitedWriteCloser
  copy [] image_fails lw = (if image_fails then some Err.other else none, lw)
  copy (p ∷ ps) image_fails lw =
      let r = Limited.write sys p lw in copied r (length p) (copy ps image_fails) r.error

  abbrev pub closed : Option Err × LimitedWriteCloser → Option Err × Disk
  closed (e, lw) = let (cerr, lw') = Limited.close sys lw in (first_error e cerr, disk_of lw'.w)

  abbrev pub stored_by :
      List (List ℕ)
      → Bool
      → Did (Option LimitedWriteCloser) Disk
      → Option LimitedWriteCloser
      → Option Err × Disk
  stored_by image image_fails opened none = (opened.error, opened.after)
  stored_by image image_fails opened (some dev) = closed (copy image image_fails dev)

  -- `StoreUpdate`, once the inactive partition is known: the error, and what is left on the device.
  unfoldable pub store_update : List (List ℕ) → Bool → ℤ → Disk → Option Err × Disk
  unfolding open_device copy
  store_update image image_fails size d =
      let opened = open_device size d in stored_by image image_fails opened opened.result
