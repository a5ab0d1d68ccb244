-- ===== src/Installer/BlockDevice/Optimized.antt =====
-- installer/block_device.go `OptimizedBlockDeviceWriter`: a frame that the device already holds is
-- not written.
use ota_pulse.Prelude.{ℕ, ◌+◌, Option, none, some, List, if◌then◌else◌, length}
use ota_pulse.Prelude.Segments.{equal_bytes}
use ota_pulse.Installer.BlockDevice.File.{Err, System, Disk, Did, did, read_full, seek_back_by}
use ota_pulse.Installer.BlockDevice.Flushing
use ota_pulse.Installer.BlockDevice.Flushing.{FlushingWriter}

pub record OptimizedBlockDeviceWriter : Type 0 where
  pub block_device : FlushingWriter
  pub total_frames : ℕ
  pub dirty_frames : ℕ

abbrev pub disk_of : OptimizedBlockDeviceWriter → Disk
disk_of bd = bd.block_device.block_device

abbrev pub with_disk : OptimizedBlockDeviceWriter → Disk → OptimizedBlockDeviceWriter
with_disk bd d = record bd { block_device = record bd.block_device { block_device = d } }

abbrev pub count_frame : ℕ → OptimizedBlockDeviceWriter → OptimizedBlockDeviceWriter
count_frame dirty bd = record bd {
  total_frames = bd.total_frames + 1;
  dirty_frames = bd.dirty_frames + dirty;
}

module _ (sys : System) where
  abbrev pub over : List ℕ → OptimizedBlockDeviceWriter → Did ℕ OptimizedBlockDeviceWriter
  over b bd =
      let r = Flushing.write sys b bd.block_device in
      did r.result r.error (record bd { block_device = r.after })

  abbrev pub after_seek :
      List ℕ → OptimizedBlockDeviceWriter → Option Err × Disk → Did ℕ OptimizedBlockDeviceWriter
  after_seek b bd (some e, d) = did 0 (some e) (with_disk bd d)
  after_seek b bd (none, d) = over b (count_frame 1 (with_disk bd d))

  -- A frame that differs from what was read: back to its start, and over it.
  unfoldable pub write_dirty :
      List ℕ → OptimizedBlockDeviceWriter → Did ℕ OptimizedBlockDeviceWriter
  write_dirty b bd = after_seek b bd (seek_back_by sys (length b) (disk_of bd))

  abbrev pub after_read :
      List ℕ → OptimizedBlockDeviceWriter → Option Err → List ℕ → Did ℕ OptimizedBlockDeviceWriter
  after_read b bd (some e) bytes = did 0 (some e) bd
  after_read b bd none bytes =
      if equal_bytes bytes b then did (length bytes) none (count_frame 0 bd) else write_dirty b bd

  unfoldable pub write : List ℕ → OptimizedBlockDeviceWriter → Did ℕ OptimizedBlockDeviceWriter
  unfolding write_dirty
  write b bd =
      let r = read_full sys (length b) (disk_of bd) in
      after_read b (with_disk bd r.after) r.error r.result

  unfoldable pub close : OptimizedBlockDeviceWriter → Option Err × OptimizedBlockDeviceWriter
  close bd =
      let (e, fw) = Flushing.close sys bd.block_device in (e, record bd { block_device = fw })
