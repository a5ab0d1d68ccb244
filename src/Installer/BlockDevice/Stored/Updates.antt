-- ===== src/Installer/BlockDevice/Stored/Updates.antt =====
-- installer/block_device.go: what is on the device after a `StoreUpdate` without an error.
use mathlib.Core.List.{append_assoc, append-nil}
use mathlib.Core.Path.{subst}
use ota_pulse.Prelude.{
  ℕ, ◌+◌, ◌-◌, ◌%◌, ◌^◌, ◌≤◌, ◌<◌, ◌≡◌, refl, sym as flip, inl, inr, Bool, Option, none, some, List,
  [], ◌∷◌, ◌++◌, ltb, ◌==◌, arith, length, Bool-cases,
}
use ota_pulse.Prelude.Segments.{take, join, length-take-le, length-append}
use ota_pulse.Installer.BlockDevice.{copied, copy}
use ota_pulse.Installer.BlockDevice.File.{close, Err, System, Did, first_error, close_file}
use ota_pulse.Installer.BlockDevice.Succeeds.{Good, Good-error, Good-failing}
use ota_pulse.Installer.BlockDevice.Limited
use ota_pulse.Installer.BlockDevice.Limited.{
  Sink, framed, raw, LimitedWriteCloser, sink_write, sink_close, disk_of,
}
use ota_pulse.Installer.BlockDevice.Bounded.Stores.{sink_write-result}
use ota_pulse.Installer.BlockDevice.Stored.OnDisk.{At, traced, write_file-At}
use ota_pulse.Installer.BlockDevice.Stored.Frames.{Holds, framed_write-Holds, framed_close-At}

with_none : (e : Option Err) (P : Type 0) → Good e P → Good (first_error e none) P
with_none none P h = h
with_none (some e) P h = h

with_error : (e : Option Err) (P Q : Type 0) → Good e P → Good (first_error e (some Err.no_space)) Q
with_error none P Q h = tt
with_error (some e) P Q h = Good-error _ _ e h

module _ (sys : System) (old : List ℕ) where
  -- The bytes that a sink took.
  abbrev pub Took : List ℕ → Sink → Type 0
  Took taken (framed bw) = Holds old taken bw
  Took taken (raw d) = At old taken d

  sink_write-Took :
      (taken b : List ℕ) (w : Sink)
      → length taken + length b ≤ length old
      → Took taken w
      → let r = sink_write sys b w in Good r.error (Took (taken ++ b) r.after)
  unfolding sink_write
  sink_write-Took taken b (framed bw) room h =
      framed_write-Holds sys old taken b bw (omega (arith, length-append taken b)) h
  sink_write-Took taken b (raw d) room h = write_file-At sys old taken b d room h

  pub sink_close-At :
      (taken : List ℕ) (w : Sink)
      → length taken ≤ length old
      → Took taken w
      → let r = sink_close sys w in Good r.0 (At old taken (disk_of r.1))
  unfolding sink_close close_file
  sink_close-At taken (framed bw) room h = framed_close-At sys old taken bw room h
  sink_close-At taken (raw d) room h =
      Good-failing (sys.fails (close ∷ d.trace)) (traced sys old close h)

  -- What the limited writer took, with what is left of its limit.
  pub record Ready (taken : List ℕ) (lw : LimitedWriteCloser) : Type 0 where
    pub took : Took taken lw.w
    pub room : length taken + lw.n ≤ length old
    pub small : lw.n < 2 ^ 64

  after_write-Ready :
      (taken p : List ℕ) (n : ℕ) (r : Did ℕ Sink) (e : Option Err)
      → length p ≤ n
      → length taken + n ≤ length old
      → n < 2 ^ 64
      → (e ≡ none → r.result ≡ length p)
      → Good e (Took (taken ++ p) r.after)
      → Good e (
          Ready (taken ++ p) (record { w = r.after; n = (n + 2 ^ 64 - r.result) % 2 ^ 64 })
          × (length p + (n + 2 ^ 64 - r.result) % 2 ^ 64 ≡ n))
  after_write-Ready taken p n r (some e) le room small full h = Good-error _ _ e h
  after_write-Ready taken p n r none le room small full h =
      let e = full refl in
      (
        record { took = h; room = omega (arith, length-append taken p); small = omega arith },
        omega arith,
      )

  write-Ready :
      (taken p : List ℕ) (lw : LimitedWriteCloser)
      → Ready taken lw
      → let r = Limited.write sys p lw in
        Good r.error (Ready (taken ++ p) r.after × (length p + r.after.n ≡ lw.n))
  unfolding Limited.write
  write-Ready taken p lw h = elim (Bool-cases (ltb lw.n (length p))) [
    | inl long ↦
        let r = sink_write sys (take lw.n p) lw.w in
        let cut : length taken + length (take lw.n p) ≤ length old =
          let room = h.room in omega (arith, length-take-le lw.n p) in
        rw long (with_error r.error _ _ (sink_write-Took taken (take lw.n p) lw.w cut h.took))
    | inr short ↦
        let r = sink_write sys p lw.w in
        let room = h.room in
        rw short (
          with_none r.error _ (
            after_write-Ready taken p lw.n r r.error (ground arith) h.room h.small
              (sink_write-result sys p lw.w) (sink_write-Took taken p lw.w (ground arith) h.took)))
  ]

  copied-Ready :
      (taken p rest : List ℕ) (n : ℕ) (r : Did ℕ LimitedWriteCloser)
      (later : LimitedWriteCloser → Option Err × LimitedWriteCloser) (e : Option Err)
      → Good e (Ready (taken ++ p) r.after × (length p + r.after.n ≡ n))
      → (Ready (taken ++ p) r.after
          → Good
              (later r.after).0
              (Took ((taken ++ p) ++ rest) (later r.after).1.w × (length rest ≤ r.after.n)))
      → let s = copied sys r (length p) later e in
        Good s.0 (Took (taken ++ (p ++ rest)) s.1.w × (length (p ++ rest) ≤ n))
  copied-Ready taken p rest n r later (some e) h next = Good-error _ _ e h
  copied-Ready taken p rest n r later none h next = elim (Bool-cases (r.result == length p)) [
    | inl e ↦ rw e (grown (later r.after).0 (later r.after).1.w (next h.0))
    | inr e ↦ rw e tt
  ]
    where
      grown :
          (e : Option Err) (w : Sink)
          → Good e (Took ((taken ++ p) ++ rest) w × (length rest ≤ r.after.n))
          → Good e (Took (taken ++ (p ++ rest)) w × (length (p ++ rest) ≤ n))
      grown (some e) w h' = Good-error _ _ e h'
      grown none w h' = (
        subst (λ t. Took t w) (append_assoc taken p rest) h'.0,
        let left = h.1 in omega (arith, length-append p rest),
      )

  pub copy-Took :
      (image : List (List ℕ)) (image_fails : Bool) (taken : List ℕ) (lw : LimitedWriteCloser)
      → Ready taken lw
      → let s = copy sys image image_fails lw in
        Good s.0 (Took (taken ++ join image) s.1.w × (length (join image) ≤ lw.n))
  unfolding copy
  copy-Took [] image_fails taken lw h =
      Good-failing image_fails
        (subst (λ t. Took t lw.w) (flip (append-nil taken)) h.took, omega arith)
  copy-Took (p ∷ ps) image_fails taken lw h =
      let r = Limited.write sys p lw in
      copied-Ready taken p (join ps) lw.n r (copy sys ps image_fails) r.error
        (write-Ready taken p lw h) (λ ready. copy-Took ps image_fails (taken ++ p) r.after ready)
