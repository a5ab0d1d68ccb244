-- ===== src/Prelude/Segments.antt =====
-- Parts of a list by native numbers, under the library's names, and an array that is written to.
use Prim.Native.Nat.{ℕ, zero, suc, ◌+◌, ◌-◌, ◌≤◌}
use mathlib.Core.Bool.{Bool, true, false, ◌&&◌}
use mathlib.Core.Path.{◌≡◌, refl, sym, ap, ◌∙◌}
use mathlib.Core.List.{List, [], ◌∷◌, ◌++◌}
use native.Mathlib.Omega.{arith}
use ota_pulse.Prelude.Tests.{◌==◌}
use ota_pulse.Prelude.Lists.{length, get_elem?}

module _ {ℓ} {A : Type ℓ} where
  abbrev pub take : ℕ → List A → List A
  take zero xs = []
  take (suc n) [] = []
  take (suc n) (x ∷ xs) = x ∷ take n xs

  abbrev pub drop : ℕ → List A → List A
  drop zero xs = xs
  drop (suc n) [] = []
  drop (suc n) (x ∷ xs) = drop n xs

  -- The pieces one after another.
  abbrev pub join : List (List A) → List A
  join [] = []
  join (xs ∷ xss) = xs ++ join xss

  pub take-append-drop : (n : ℕ) (xs : List A) → take n xs ++ drop n xs ≡ xs
  take-append-drop zero xs = refl
  take-append-drop (suc n) [] = refl
  take-append-drop (suc n) (x ∷ xs) = rw (take-append-drop n xs)

  pub length-take-le : (n : ℕ) (xs : List A) → length (take n xs) ≤ n
  length-take-le zero xs = omega arith
  length-take-le (suc n) [] = omega arith
  length-take-le (suc n) (x ∷ xs) = omega (arith, length-take-le n xs)

  pub length-take-le_length : (n : ℕ) (xs : List A) → length (take n xs) ≤ length xs
  length-take-le_length zero xs = omega arith
  length-take-le_length (suc n) [] = omega arith
  length-take-le_length (suc n) (x ∷ xs) = omega (arith, length-take-le_length n xs)

  pub length-take_of_le : (n : ℕ) (xs : List A) → n ≤ length xs → length (take n xs) ≡ n
  length-take_of_le zero xs h = omega arith
  length-take_of_le (suc n) [] h = absurd (omega arith)
  length-take_of_le (suc n) (x ∷ xs) h = omega (arith, length-take_of_le n xs (omega arith))

  pub take_all : (n : ℕ) (xs : List A) → length xs ≤ n → take n xs ≡ xs
  take_all zero [] h = refl
  take_all zero (x ∷ xs) h = absurd (omega arith)
  take_all (suc n) [] h = refl
  take_all (suc n) (x ∷ xs) h = rw (take_all n xs (omega arith))

  pub take-length-take : (n : ℕ) (xs : List A) → take n xs ≡ take (length (take n xs)) xs
  take-length-take zero xs = refl
  take-length-take (suc n) [] = refl
  take-length-take (suc n) (x ∷ xs) = ap (λ t. x ∷ t) (take-length-take n xs)

  pub length-drop : (n : ℕ) (xs : List A) → length (drop n xs) ≡ length xs - n
  length-drop zero xs = omega arith
  length-drop (suc n) [] = omega arith
  length-drop (suc n) (x ∷ xs) = omega (arith, length-drop n xs)

  pub length-append : (xs ys : List A) → length (xs ++ ys) ≡ length xs + length ys
  length-append [] ys = omega arith
  length-append (x ∷ xs) ys = omega (arith, length-append xs ys)

  -- What follows the part that was in front.
  pub drop-append : (xs ys : List A) → drop (length xs) (xs ++ ys) ≡ ys
  drop-append [] ys = refl
  drop-append (x ∷ xs) ys = drop-append xs ys

  take-nil : (n : ℕ) → take n [] ≡ []
  take-nil zero = refl
  take-nil (suc n) = refl

  drop-nil : (n : ℕ) → drop n [] ≡ []
  drop-nil zero = refl
  drop-nil (suc n) = refl

  pub drop-drop : (n m : ℕ) (ys : List A) → drop n (drop m ys) ≡ drop (m + n) ys
  drop-drop n zero ys = ap (λ (k : ℕ). drop k ys) (omega arith)
  drop-drop n (suc m) [] =
      drop-nil n ∙ sym (drop-nil (m + n + 1)) ∙ ap (λ (k : ℕ). drop k []) (omega arith)
  drop-drop n (suc m) (y ∷ ys) =
      drop-drop n m ys ∙ ap (λ (k : ℕ). drop k (y ∷ ys)) {x = suc (m + n)} (omega arith)

  pub take-append-take : (n m : ℕ) (ys : List A) → take n ys ++ take m (drop n ys) ≡ take (n + m) ys
  take-append-take zero m ys = ap (λ (k : ℕ). take k ys) (omega arith)
  take-append-take (suc n) m [] = take-nil m ∙ sym (take-nil (suc n + m))
  take-append-take (suc n) m (y ∷ ys) =
      ap (λ t. y ∷ t) (take-append-take n m ys)
      ∙ ap (λ (k : ℕ). take k (y ∷ ys)) {x = suc (n + m)} (omega arith)

  -- An array of a fixed length; what would stand behind its end is lost.
  unfoldable pub overwrite : ℕ → List A → List A → List A
  overwrite pos bs [] = []
  overwrite zero [] (x ∷ xs) = x ∷ xs
  overwrite zero (b ∷ bs) (x ∷ xs) = b ∷ overwrite zero bs xs
  overwrite (suc pos) bs (x ∷ xs) = x ∷ overwrite pos bs xs

  pub length-overwrite : (pos : ℕ) (bs xs : List A) → length (overwrite pos bs xs) ≡ length xs
  unfolding overwrite
  length-overwrite pos bs [] = refl
  length-overwrite zero [] (x ∷ xs) = refl
  length-overwrite zero (b ∷ bs) (x ∷ xs) = ap suc (length-overwrite zero bs xs)
  length-overwrite (suc pos) bs (x ∷ xs) = ap suc (length-overwrite pos bs xs)

  -- Behind what was written nothing changes.
  pub get_elem?-overwrite :
      (pos : ℕ) (bs xs : List A) (i : ℕ)
      → pos + length bs ≤ i
      → get_elem? (overwrite pos bs xs) i ≡ get_elem? xs i
  unfolding overwrite
  get_elem?-overwrite pos bs [] i h = refl
  get_elem?-overwrite zero [] (x ∷ xs) i h = refl
  get_elem?-overwrite zero (b ∷ bs) (x ∷ xs) zero h = absurd (omega arith)
  get_elem?-overwrite zero (b ∷ bs) (x ∷ xs) (suc i) h =
      get_elem?-overwrite zero bs xs i (omega arith)
  get_elem?-overwrite (suc pos) bs (x ∷ xs) zero h = absurd (omega arith)
  get_elem?-overwrite (suc pos) bs (x ∷ xs) (suc i) h =
      get_elem?-overwrite pos bs xs i (omega arith)

  overwrite-first :
      (bs xs : List A) → length bs ≤ length xs → overwrite zero bs xs ≡ bs ++ drop (length bs) xs
  unfolding overwrite
  overwrite-first [] [] h = refl
  overwrite-first [] (x ∷ xs) h = refl
  overwrite-first (b ∷ bs) [] h = absurd (omega arith)
  overwrite-first (b ∷ bs) (x ∷ xs) h = ap (λ t. b ∷ t) (overwrite-first bs xs (omega arith))

  pub overwrite-append :
      (done bs xs : List A)
      → length bs ≤ length xs
      → overwrite (length done) bs (done ++ xs) ≡ done ++ (bs ++ drop (length bs) xs)
  unfolding overwrite
  overwrite-append [] bs xs h = overwrite-first bs xs h
  overwrite-append (d ∷ done) bs xs h = ap (λ t. d ∷ t) (overwrite-append done bs xs h)

-- bytes.Equal
unfoldable pub equal_bytes : List ℕ → List ℕ → Bool
equal_bytes [] [] = true
equal_bytes [] (y ∷ ys) = false
equal_bytes (x ∷ xs) [] = false
equal_bytes (x ∷ xs) (y ∷ ys) = x == y && equal_bytes xs ys

pub equal_bytes-eq : (xs ys : List ℕ) → equal_bytes xs ys ≡ true → xs ≡ ys
unfolding equal_bytes
equal_bytes-eq [] [] h = refl
equal_bytes-eq [] (y ∷ ys) h = ground arith
equal_bytes-eq (x ∷ xs) [] h = ground arith
equal_bytes-eq (x ∷ xs) (y ∷ ys) h = ground (arith, equal_bytes-eq xs ys)

pub equal_bytes_refl : (xs : List ℕ) → equal_bytes xs xs ≡ true
unfolding equal_bytes
equal_bytes_refl [] = refl
equal_bytes_refl (x ∷ xs) = ground (arith, equal_bytes_refl xs)
