-- ===== src/Installer/BlockDevice/Stored/Frames.antt =====
-- installer/block_device.go and utils/limited_writer.go: the bytes that the frames and the limited
-- writer took without an error are on the device, or still collected.
use mathlib.Core.Path.{subst}
use mathlib.Core.List.{append_assoc}
use ota_pulse.Prelude.{
  ℕ, zero, suc, ◌+◌, ◌/◌, ◌≤◌, ◌≡◌, refl, sym as flip, ap, ◌∙◌, inl, inr, Bool, true, false, Option,
  none, some, List, ◌∷◌, ◌++◌, ltb, arith, length, Bool-cases,
}
use ota_pulse.Prelude.Segments.{take, drop, length-append, take-append-drop}
use ota_pulse.Installer.BlockDevice.File.{
  close, sync, Err, System, failing, first_error, sync_file, close_file,
}
use ota_pulse.Installer.BlockDevice.Succeeds.{Good, Good-error}
use ota_pulse.Installer.BlockDevice.Flushing
use ota_pulse.Installer.BlockDevice.Optimized
use ota_pulse.Installer.BlockDevice.Optimized.{OptimizedBlockDeviceWriter}
use ota_pulse.Installer.BlockDevice.Framed
use ota_pulse.Installer.BlockDevice.Framed.{
  BlockFrameWriter, write_frames, written, go_on, unless_eof,
}
use ota_pulse.Installer.BlockDevice.Stored.{optimized_write-At}
use ota_pulse.Installer.BlockDevice.Stored.OnDisk.{At, traced}

-- The bytes that were taken are on the device, but for those in the buffer.
pub record Holds (old taken : List ℕ) (bw : BlockFrameWriter) : Type 0 where
  pub before : List ℕ
  pub split : taken ≡ before ++ bw.buf
  pub on_device : At old before (Optimized.disk_of bw.w)

pub length-Holds :
    {old taken : List ℕ} (bw : BlockFrameWriter) (h : Holds old taken bw)
    → length h.before + length bw.buf ≡ length taken
length-Holds bw h = flip (length-append h.before bw.buf) ∙ ap (λ t. length t) (flip h.split)

module _ (sys : System) (old : List ℕ) where
  go_on-Holds :
      (taken : List ℕ) (e : Option Err) (bw : BlockFrameWriter)
      (rest : Option Err × BlockFrameWriter)
      → Good e (Holds old taken bw)
      → (Holds old taken bw → Good rest.0 (Holds old taken rest.1))
      → let r = go_on e bw rest in Good r.0 (Holds old taken r.1)
  go_on-Holds taken (some e) bw rest h later = h
  go_on-Holds taken none bw rest h later = later h

  to_next :
      (taken : List ℕ) (e : Option Err) (before first rest : List ℕ) (bw : BlockFrameWriter)
      → taken ≡ before ++ (first ++ rest)
      → bw.buf ≡ rest
      → Good e (At old (before ++ first) (Optimized.disk_of bw.w))
      → Good e (Holds old taken bw)
  to_next taken (some e) before first rest bw split left h = Good-error _ _ e h
  to_next taken none before first rest bw split left h = record {
    before = before ++ first;
    split =
        split
        ∙ flip (append_assoc before first rest)
        ∙ ap (λ t. (before ++ first) ++ t) (flip left);
    on_device = h;
  }

  write_frames-Holds :
      (n : ℕ) (taken : List ℕ) (bw : BlockFrameWriter)
      → length taken ≤ length old
      → Holds old taken bw
      → let r = write_frames sys n bw in Good r.0 (Holds old taken r.1)
  unfolding write_frames
  write_frames-Holds zero taken bw room h = h
  write_frames-Holds (suc n) taken bw room h =
      let first = take bw.frame_size bw.buf in
      let rest = drop bw.frame_size bw.buf in
      let r = Optimized.write sys first bw.w in
      let bw' : BlockFrameWriter = record bw { buf = rest; w = r.after } in
      let parts = take-append-drop bw.frame_size bw.buf in
      let sizes = flip (length-append first rest) ∙ ap (λ t. length t) parts in
      go_on-Holds taken r.error bw' (write_frames sys n bw')
        (to_next taken r.error h.before first rest bw'
          (h.split ∙ ap (λ t. h.before ++ t) (flip parts)) refl
          (optimized_write-At sys old h.before first bw.w (omega (arith, length-Holds bw h))
            h.on_device))
        (λ next. write_frames-Holds n taken bw' room next)

  written-Holds :
      (taken : List ℕ) (n : ℕ) (r : Option Err × BlockFrameWriter)
      → Good r.0 (Holds old taken r.1)
      → let s = written n r in Good s.error (Holds old taken s.after)
  written-Holds taken n (none, bw) h = h
  written-Holds taken n (some e, bw) h = h

  pub framed_write-Holds :
      (taken b : List ℕ) (bw : BlockFrameWriter)
      → length (taken ++ b) ≤ length old
      → Holds old taken bw
      → let s = Framed.write sys b bw in Good s.error (Holds old (taken ++ b) s.after)
  unfolding Framed.write
  framed_write-Holds taken b bw room h =
      let bw' : BlockFrameWriter = record bw { buf = bw.buf ++ b } in
      let more : Holds old (taken ++ b) bw' = record {
        before = h.before;
        split = ap (λ t. t ++ b) h.split ∙ append_assoc h.before bw.buf b;
        on_device = h.on_device;
      } in
      let frames = length bw'.buf / bw'.frame_size in
      elim (Bool-cases (ltb (length bw'.buf) bw'.frame_size)) [
        | inl e ↦ rw e more
        | inr e ↦ rw e (
            written-Holds (taken ++ b) (length b) (write_frames sys frames bw')
              (write_frames-Holds frames (taken ++ b) bw' room more))
      ]

  -- No error of the calls that close, and none of the last write.
  closing :
      (e : Option Err) (s c : Bool) {P Q : Type 0}
      → (P → Q)
      → Good e P
      → Good (first_error (first_error (failing s) (failing c)) (unless_eof e)) Q
  closing e true c f h = tt
  closing e false true f h = tt
  closing none false false f h = f h
  closing (some Err.eof) false false f h = absurd h
  closing (some Err.unexpected_eof) false false f h = tt
  closing (some Err.no_space) false false f h = tt
  closing (some Err.short_write) false false f h = tt
  closing (some Err.other) false false f h = tt

  pub framed_close-At :
      (taken : List ℕ) (bw : BlockFrameWriter)
      → length taken ≤ length old
      → Holds old taken bw
      → let r = Framed.close sys bw in Good r.0 (At old taken (Optimized.disk_of r.1.w))
  unfolding Framed.close Optimized.close Flushing.close Flushing.sync sync_file close_file
  framed_close-At taken bw room h =
      let r = Optimized.write sys bw.buf bw.w in
      let d = Optimized.disk_of r.after in
      closing r.error (sys.fails (sync ∷ d.trace)) (sys.fails (close ∷ (sync ∷ d.trace)))
        (λ (q : At old (h.before ++ bw.buf) d).
          traced sys old close (traced sys old sync (subst (λ t. At old t d) (flip h.split) q)))
        (optimized_write-At sys old h.before bw.buf bw.w (omega (arith, length-Holds bw h))
          h.on_device)
