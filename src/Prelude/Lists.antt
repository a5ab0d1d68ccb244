-- ===== src/Prelude/Lists.antt =====
-- Lists measured and indexed by native numbers, under the library's names, and dictionaries.
use Prim.Native.Nat.{ℕ, zero, suc}
use Prim.Native.String.{String}
use mathlib.Core.Bool.{Bool, true, false, ◌&&◌, ◌||◌}
use mathlib.Core.Path.{◌≡◌, refl, sym}
use mathlib.Core.Logic.{◌≢◌, inl, inr}
use mathlib.Core.List.{List, [], ◌∷◌}
use mathlib.Core.List.{Memᴰ}
use mathlib.Core.Option.{Option, none, some}
use native.Mathlib.Omega.{arith}
use text.Mathlib.Text.{◌==◌ as str_eq}
use text.Mathlib.TextEquality.{eq_iff}
use ota_pulse.Prelude.Tests.{if◌then◌else◌, Bool-cases}

module _ {ℓ} {A : Type ℓ} where
  abbrev pub length : List A → ℕ
  length [] = 0
  length (x ∷ xs) = suc (length xs)

  abbrev pub get_elem? : List A → ℕ → Option A
  get_elem? [] i = none
  get_elem? (x ∷ xs) zero = some x
  get_elem? (x ∷ xs) (suc i) = get_elem? xs i

  -- The elements that pass a test, in their order.
  unfoldable pub keep : (A → Bool) → List A → List A
  keep p [] = []
  keep p (x ∷ xs) = let rest = keep p xs in if p x then x ∷ rest else rest

  abbrev pub all : (A → Bool) → List A → Bool
  all p [] = true
  all p (x ∷ xs) = p x && all p xs

  abbrev pub any : (A → Bool) → List A → Bool
  any p [] = false
  any p (x ∷ xs) = p x || any p xs

  abbrev pub All {κ} : (A → Type κ) → List A → Type κ
  All P [] = Unit
  All P (x ∷ xs) = P x × All P xs

-- `utils.ElemInSlice` on texts.
unfoldable pub contains : List String → String → Bool
contains [] a = false
contains (x ∷ xs) a = str_eq x a || contains xs a

pub Mem_of_contains : (xs : List String) (a : String) → contains xs a ≡ true → Memᴰ a xs
unfolding contains
Mem_of_contains [] a h = absurd (ground arith)
Mem_of_contains (x ∷ xs) a h = elim (Bool-cases (str_eq x a)) [
  | inl e ↦ Memᴰ.head (sym ((eq_iff x a).0 e))
  | inr e ↦ Memᴰ.tail (Mem_of_contains xs a (ground arith))
]

pub contains_of_Mem : {a : String} {xs : List String} → Memᴰ a xs → contains xs a ≡ true
unfolding contains
contains_of_Mem {a = a} (Memᴰ.head {x} {xs} e) = ground (arith, (eq_iff x a).1 (sym e))
contains_of_Mem (Memᴰ.tail {x} {xs} m) = ground (arith, contains_of_Mem m)

-- Texts are told apart by evaluating their test.
pub str_ne : (a b : String) → str_eq a b ≡ false → a ≢ b
str_ne a b h e = ground (arith, (eq_iff a b).1 e)

-- A Go map with texts for keys, as an association list.
module _ {ℓ} {V : Type ℓ} where
  unfoldable pub lookup : String → List (String × V) → Option V
  lookup k [] = none
  lookup k ((j, v) ∷ m) = if str_eq j k then some v else lookup k m

  unfoldable pub insert : String → V → List (String × V) → List (String × V)
  insert k v [] = (k, v) ∷ []
  insert k v ((j, w) ∷ m) = if str_eq j k then (k, v) ∷ m else (j, w) ∷ insert k v m

  unfoldable pub delete : String → List (String × V) → List (String × V)
  delete k [] = []
  delete k ((j, v) ∷ m) = let rest = delete k m in if str_eq j k then rest else (j, v) ∷ rest

  pub lookup-insert :
      (key j : String) (value : V) (entries : List (String × V))
      → lookup j (insert key value entries)
        ≡ (if str_eq key j then some value else lookup j entries)
  unfolding insert lookup
  lookup-insert key j value [] = refl
  lookup-insert key j value ((at, old) ∷ rest) =
      ground (arith, lookup-insert key j value rest, eq_iff at j, eq_iff at key, eq_iff key j)

  pub lookup-delete :
      (k j : String) (m : List (String × V))
      → lookup j (delete k m) ≡ (if str_eq k j then none else lookup j m)
  unfolding lookup delete
  lookup-delete k j [] = ground arith
  lookup-delete k j ((i, w) ∷ m) =
      ground (arith, eq_iff k j, eq_iff i k, eq_iff i j, lookup-delete k j m)
