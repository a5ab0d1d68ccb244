-- ===== src/Installer/BlockDevice/Limited.antt =====
-- utils/limited_writer.go `LimitedWriteCloser`: no more bytes than the update has.
use ota_pulse.Prelude.{ℕ, ◌+◌, ◌-◌, ◌%◌, ◌^◌, Option, none, some, List, ltb, if◌then◌else◌, length}
use ota_pulse.Prelude.Segments.{take}
use ota_pulse.Installer.BlockDevice.File.{
  Err, System, Disk, Did, did, first_error, write_file, close_file,
}
use ota_pulse.Installer.BlockDevice.Framed
use ota_pulse.Installer.BlockDevice.Framed.{BlockFrameWriter}

-- What the limited writer writes to: frames, or the file of a UBI volume.
pub data Sink : Type 0 where
  framed : BlockFrameWriter → Sink
  raw : Disk → Sink

pub record LimitedWriteCloser : Type 0 where
  pub w : Sink
  pub n : ℕ

abbrev pub disk_of : Sink → Disk
disk_of (framed bw) = bw.w.block_device.block_device
disk_of (raw d) = d

module _ (sys : System) where
  unfoldable pub sink_write : List ℕ → Sink → Did ℕ Sink
  sink_write p (framed bw) = let r = Framed.write sys p bw in did r.result r.error (framed r.after)
  sink_write p (raw d) = let r = write_file sys p d in did r.result r.error (raw r.after)

  unfoldable pub sink_close : Sink → Option Err × Sink
  sink_close (framed bw) = let (e, bw') = Framed.close sys bw in (e, framed bw')
  sink_close (raw d) = let (e, d') = close_file sys d in (e, raw d')

  -- What is left of the limit is a uint64; the error of the write comes first.
  unfoldable pub write : List ℕ → LimitedWriteCloser → Did ℕ LimitedWriteCloser
  unfolding sink_write
  write p lw =
      let too_long = ltb lw.n (length p) in
      let r = sink_write (if too_long then take lw.n p else p) lw.w in
      did r.result (first_error r.error (if too_long then some Err.no_space else none))
        (record lw { w = r.after; n = (lw.n + 2 ^ 64 - r.result) % 2 ^ 64 })

  unfoldable pub close : LimitedWriteCloser → Option Err × LimitedWriteCloser
  unfolding sink_close
  close lw = let (e, w') = sink_close lw.w in (e, record lw { w = w' })
