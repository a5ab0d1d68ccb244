-- ===== src/Agent/Depends/Laws.antt =====
-- When the dependencies of an artifact are accepted.
use mathlib.Core.Path.{subst}
use mathlib.Core.List.{Memᴰ}
use ota_pulse.Prelude.{
  none, Mem_of_contains, contains_of_Mem, sym, eq_refl, String, ◌≡◌, ◌↔◌, inl, inr, refl, true,
  Option, some, List, [], ◌∷◌, arith, ◌=ₛ◌, eq_iff, lookup, Bool-cases, Option-cases,
}
use ota_pulse.Agent.Env.{Depend, any_list, text_list, text}
use ota_pulse.Agent.Depends.{elem_in_slice, depend_holds, verify_artifact_dependencies}

-- A text stands in a list of values of any type, after no value of another type.
pub data StandsIn (p : String) : List (Option String) → Type 0 where
  first : {x : String} {xs : List (Option String)} → p ≡ x → StandsIn p (some x ∷ xs)
  later : {x : String} {xs : List (Option String)} → StandsIn p xs → StandsIn p (some x ∷ xs)

-- What a dependency asks of the value provided: to be a text, to be in a list of texts, or to stand
-- in a list of values.
pub data Accepts : Depend → String → Type 0 where
  by_text : (s : String) → Accepts (text s) s
  by_texts : (xs : List String) (p : String) → Memᴰ p xs → Accepts (text_list xs) p
  by_values : (xs : List (Option String)) (p : String) → StandsIn p xs → Accepts (any_list xs) p

-- Every dependency but that on the device type has a value provided that it accepts.
pub data Satisfied (provides : List (String × String)) : List (String × Depend) → Type 0 where
  nothing : Satisfied provides []
  device :
      {d : Depend} {ds : List (String × Depend)}
      → Satisfied provides ds
      → Satisfied provides (("device_type", d) ∷ ds)
  provided :
      {k p : String} {d : Depend} {ds : List (String × Depend)}
      → lookup k provides ≡ some p
      → Accepts d p
      → Satisfied provides ds
      → Satisfied provides ((k, d) ∷ ds)

elem_in_slice-StandsIn :
    (xs : List (Option String)) (p : String) → elem_in_slice xs p ≡ some true → StandsIn p xs
unfolding elem_in_slice
elem_in_slice-StandsIn [] p h = absurd (ground arith)
elem_in_slice-StandsIn (none ∷ xs) p h = absurd (ground arith)
elem_in_slice-StandsIn (some x ∷ xs) p h = elim (Bool-cases (x =ₛ p)) [
  | inl e ↦ first (sym ((eq_iff x p).0 e))
  | inr e ↦ later (elem_in_slice-StandsIn xs p (ground arith))
]

elem_of_StandsIn :
    {p : String} {xs : List (Option String)} → StandsIn p xs → elem_in_slice xs p ≡ some true
unfolding elem_in_slice
elem_of_StandsIn {p = p} (first {x} {xs} e) = ground (arith, (eq_iff x p).1 (sym e))
elem_of_StandsIn (later {x} {xs} s) = ground (arith, elem_of_StandsIn s)

depend_holds-Accepts : (d : Depend) (p : String) → depend_holds d p ≡ true → Accepts d p
unfolding depend_holds
depend_holds-Accepts (any_list xs) p h = by_values xs p (
    elem_in_slice-StandsIn xs p (elim (Option-cases (elem_in_slice xs p)) [
      | inl e ↦ ground arith
      | inr (b, e) ↦ ground arith
    ]))
depend_holds-Accepts (text_list xs) p h = by_texts xs p (Mem_of_contains xs p h)
depend_holds-Accepts (text s) p h =
    subst (λ t. Accepts (text s) t) (sym ((eq_iff p s).0 h)) (by_text s)
depend_holds-Accepts Depend.other p h = cc

holds_of_Accepts : {d : Depend} {p : String} → Accepts d p → depend_holds d p ≡ true
unfolding depend_holds
holds_of_Accepts (by_text s) = eq_refl s
holds_of_Accepts (by_texts xs p h) = contains_of_Mem h
holds_of_Accepts (by_values xs p h) = rw (elem_of_StandsIn h, depend_holds) refl

verify-Satisfied :
    (ds : List (String × Depend)) (provides : List (String × String))
    → verify_artifact_dependencies ds provides ≡ true
    → Satisfied provides ds
unfolding verify_artifact_dependencies
verify-Satisfied [] provides h = nothing
verify-Satisfied ((k, d) ∷ ds) provides h = elim (Bool-cases (k =ₛ "device_type")) [
  | inl e ↦
      subst (λ j. Satisfied provides ((j, d) ∷ ds)) (sym ((eq_iff k "device_type").0 e))
        (device (verify-Satisfied ds provides (ground arith)))
  | inr e ↦ elim (Option-cases (lookup k provides)) [
    | inl missing ↦ absurd (ground arith)
    | inr (p, found) ↦
        provided found (depend_holds-Accepts d p (ground arith))
          (verify-Satisfied ds provides (ground arith))
  ]
]

verified_of_Satisfied :
    (provides : List (String × String)) {ds : List (String × Depend)}
    → Satisfied provides ds
    → verify_artifact_dependencies ds provides ≡ true
unfolding verify_artifact_dependencies
verified_of_Satisfied provides nothing = refl
verified_of_Satisfied provides (device s) = verified_of_Satisfied provides s
verified_of_Satisfied provides (provided {k = k} {ds = ds} found a s) =
    rw found (rw (holds_of_Accepts a) (ground (arith, verified_of_Satisfied provides s)))

-- The dependencies of an artifact are accepted exactly when each of them, but for the device type,
-- has a value provided that it accepts.
pub verify_artifact_dependencies_iff :
    (ds : List (String × Depend)) (provides : List (String × String))
    → (verify_artifact_dependencies ds provides ≡ true) ↔ Satisfied provides ds
verify_artifact_dependencies_iff ds provides =
    (verify-Satisfied ds provides, verified_of_Satisfied provides)
