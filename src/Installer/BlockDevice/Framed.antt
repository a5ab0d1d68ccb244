-- ===== src/Installer/BlockDevice/Framed.antt =====
-- installer/block_device.go `BlockFrameWriter`: collects bytes, and writes them in frames.
use ota_pulse.Prelude.{
  ℕ, zero, suc, ◌/◌, Option, none, some, List, ◌++◌, ltb, if◌then◌else◌, length,
}
use ota_pulse.Prelude.Segments.{take, drop}
use ota_pulse.Installer.BlockDevice.File.{Err, System, Did, did, first_error}
use ota_pulse.Installer.BlockDevice.Optimized
use ota_pulse.Installer.BlockDevice.Optimized.{OptimizedBlockDeviceWriter}

pub record BlockFrameWriter : Type 0 where
  pub buf : List ℕ
  pub frame_size : ℕ
  pub w : OptimizedBlockDeviceWriter

-- All of the bytes, or none if a frame fails.
abbrev pub written : ℕ → Option Err × BlockFrameWriter → Did ℕ BlockFrameWriter
written n (none, bw) = did n none bw
written n (some e, bw) = did 0 (some e) bw

-- The end of the device is no error when the rest is written.
abbrev pub unless_eof : Option Err → Option Err
unless_eof none = none
unless_eof (some Err.eof) = none
unless_eof (some e) = some e

abbrev pub go_on :
    Option Err → BlockFrameWriter → Option Err × BlockFrameWriter → Option Err × BlockFrameWriter
go_on (some e) bw rest = (some e, bw)
go_on none bw rest = rest

module _ (sys : System) where
  -- The loop over the full frames: the error of the first that fails.
  unfoldable pub write_frames : ℕ → BlockFrameWriter → Option Err × BlockFrameWriter
  write_frames zero bw = (none, bw)
  write_frames (suc n) bw =
      let r = Optimized.write sys (take bw.frame_size bw.buf) bw.w in
      let bw' : BlockFrameWriter = record bw { buf = drop bw.frame_size bw.buf; w = r.after } in
      go_on r.error bw' (write_frames n bw')

  unfoldable pub write : List ℕ → BlockFrameWriter → Did ℕ BlockFrameWriter
  unfolding write_frames
  write b bw =
      let bw' : BlockFrameWriter = record bw { buf = bw.buf ++ b } in
      if ltb (length bw'.buf) bw'.frame_size
      then did (length b) none bw'
      else written (length b) (write_frames (length bw'.buf / bw'.frame_size) bw')

  unfoldable pub close : BlockFrameWriter → Option Err × BlockFrameWriter
  close bw =
      let r = Optimized.write sys bw.buf bw.w in
      let (cerr, w') = Optimized.close sys r.after in
      (first_error cerr (unless_eof r.error), record bw { w = w' })
