-- ===== src/Installer/Triple.antt =====
-- What holds of a world before an action of installer/, and of its result and the world after it.
use ota_pulse.Prelude.{String, Bool, true, false, Option, List, ◌∷◌, if◌then◌else◌}
use ota_pulse.Installer.World.{
  Call, World, M, ◌>>=◌, ◌>>◌, pure, gets, modify, ask, then_if, BootDir, set_file, set_boot,
}

pub record Triple {A : Type 0} (P : World → Type 0) (m : M A) (Q : A → World → Type 0)
    : Type 0 where
  pub run : (w : World) → P w → Q (m w).0 (m w).1

-- What holds of the world alone, after any result.
abbrev pub After : {A : Type 0} → (World → Type 0) → A → World → Type 0
After P a w = P w

-- What does not depend on the calls so far.
abbrev pub IsCallFree : (World → Type 0) → Type 0
IsCallFree P = (w : World) (calls : List Call) → P w → P (record w { trace = calls })

-- What a write to a file, or to the boot partition, does not touch.
abbrev pub IsFileFree : String → (World → Type 0) → Type 0
IsFileFree path P = (w : World) (content : Option String) → P w → P (set_file path content w)

abbrev pub IsBootFree : (World → Type 0) → Type 0
IsBootFree P = (w : World) (at : String) (dir : BootDir) → P w → P (set_boot at dir w)

module _ {P : World → Type 0} where
  pub bind-Triple :
      {A B : Type 0} (R : A → World → Type 0) {Q : B → World → Type 0} {m : M A} {k : A → M B}
      → Triple P m R
      → ((a : A) → Triple (R a) (k a) Q)
      → Triple P (m >>= k) Q
  unfolding ◌>>=◌
  bind-Triple R {m = m} first next = record {
    run = λ w p. (next (m w).0).run (m w).1 (first.run w p);
  }

  pub then-Triple :
      {A B : Type 0} (R : World → Type 0) {Q : B → World → Type 0} {m : M A} {k : M B}
      → Triple P m (After R)
      → Triple R k Q
      → Triple P (m >> k) Q
  unfolding ◌>>=◌ ◌>>◌
  then-Triple R first next = bind-Triple (After R) first (λ a. next)

  pub pure-Triple :
      {A : Type 0} {Q : A → World → Type 0} (a : A)
      → ((w : World) → P w → Q a w)
      → Triple P (pure a) Q
  unfolding pure
  pure-Triple a q = record { run = q }

  pub gets-Triple :
      {A : Type 0} {Q : A → World → Type 0} (f : World → A)
      → ((w : World) → P w → Q (f w) w)
      → Triple P (gets f) Q
  unfolding gets
  gets-Triple f q = record { run = q }

  pub modify-Triple :
      {Q : Unit {0} → World → Type 0} (f : World → World)
      → ((w : World) → P w → Q tt (f w))
      → Triple P (modify f) Q
  unfolding modify
  modify-Triple f q = record { run = q }

  pub ask-Triple :
      {A : Type 0} (c : Call) (answer : List Call → A)
      → IsCallFree P
      → Triple P (ask c answer) (After P)
  unfolding ask
  ask-Triple c answer free = record { run = λ w p. free w (c ∷ w.trace) p }

  pub if-Triple :
      {A : Type 0} {Q : A → World → Type 0} {m k : M A} (b : Bool)
      → Triple P m Q
      → Triple P k Q
      → Triple P (if b then m else k) Q
  if-Triple true h k = h
  if-Triple false h k = k

  pub then_if-Triple :
      {m : M (Unit {0})} (b : Bool) → Triple P m (After P) → Triple P (then_if b m) (After P)
  unfolding then_if
  then_if-Triple true h = h
  then_if-Triple false h = pure-Triple tt (λ w p. p)

  pub weaken-Triple :
      {A : Type 0} {P' : World → Type 0} {Q Q' : A → World → Type 0} {m : M A}
      → ((w : World) → P' w → P w)
      → ((a : A) (w : World) → Q a w → Q' a w)
      → Triple P m Q
      → Triple P' m Q'
  weaken-Triple pre post h = record { run = λ w p. post _ _ (h.run w (pre w p)) }

-- Two triples of one action.
pub both-Triple :
    {A : Type 0} {P : World → Type 0} {Q Q' : A → World → Type 0} {m : M A}
    → Triple P m Q
    → Triple P m Q'
    → Triple P m (λ a w. Q a w × Q' a w)
both-Triple h k = record { run = λ w p. (h.run w p, k.run w p) }
