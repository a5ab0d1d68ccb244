-- ===== src/Installer/Text/Digits.antt =====
-- The digits of a number, and what they are read back as.
use Prim.Native.Char.{Char, code}
use native.Mathlib.Nat.{
  div-add-mod', mod-lt, div-lt_iff_lt-mul, mod-eq_of_lt, pow-suc, pow-zero, le-div_iff_mul-le,
}
use mathlib.Core.Path.{subst}
use ota_pulse.Prelude.{
  ℕ, zero, suc, ◌+◌, ◌*◌, ◌/◌, ◌%◌, ◌^◌, ◌<◌, ◌≤◌, ◌≡◌, refl, ap, ◌∙◌, String, Bool, true, false,
  not, ◌&&◌, ◌==◌, ltb, arith, Bool-cases, inl, inr,
}
use ota_pulse.Installer.Text.{
  digit_value, digit_char, upper_digit_char, write_digits, parse_digits, is_space, is_empty,
}

==→≡ : (a b : ℕ) → a == b ≡ true → a ≡ b
==→≡ a b h = ground arith

&&-left : (a b : Bool) → a && b ≡ true → a ≡ true
&&-left a b h = ground arith

&&-right : (a b : Bool) → a && b ≡ true → b ≡ true
&&-right a b h = ground arith

ltb→lt : (a b : ℕ) → ltb a b ≡ true → a < b
ltb→lt a b h = ground arith

-- A test that holds below a bound, by computing it there.
all_below : ℕ → (ℕ → Bool) → Bool
all_below zero p = true
all_below (suc n) p = p n && all_below n p

all_below→ : (k : ℕ) (p : ℕ → Bool) → all_below k p ≡ true → (n : ℕ) → n < k → p n ≡ true
unfolding all_below
all_below→ zero p e n h = ground arith
all_below→ (suc k) p e n h = elim (Bool-cases (n == k)) [
  | inl same ↦ cc (==→≡ n k same, &&-left (p k) (all_below k p) e)
  | inr other ↦ all_below→ k p (&&-right (p k) (all_below k p) e) n (ground arith)
]

-- A character that is neither white space nor a sign, and a text of such characters.
abbrev pub is_plain : Char → Bool
is_plain c = not (is_space c) && not (code c == b'+') && not (code c == b'-')

pub data IsPlain : String → Type 0 where
  empty : IsPlain ""
  char : {c : Char} {s : String} → is_plain c ≡ true → IsPlain s → IsPlain (String.◌∷◌ c s)

-- A way to write the digits of a base.
pub record IsDigits (digit : ℕ → Char) (base : ℕ) : Type 0 where
  pub value : (n : ℕ) → n < base → digit_value (digit n) ≡ n
  pub plain : (n : ℕ) → n < base → is_plain (digit n) ≡ true

by_table :
    (digit : ℕ → Char) (base : ℕ)
    → all_below base (λ n. digit_value (digit n) == n) ≡ true
    → all_below base (λ n. is_plain (digit n)) ≡ true
    → IsDigits digit base
by_table digit base values plains = record {
  value = λ n h.
      ==→≡ (digit_value (digit n)) n (all_below→ base (λ n. digit_value (digit n) == n) values n h);
  plain = all_below→ base (λ n. is_plain (digit n)) plains;
}

pub decimal-IsDigits : IsDigits digit_char 10
unfolding all_below is_space
decimal-IsDigits = by_table digit_char 10 refl refl

hex-IsDigits : IsDigits digit_char 16
unfolding all_below is_space
hex-IsDigits = by_table digit_char 16 refl refl

pub upper_hex-IsDigits : IsDigits upper_digit_char 16
unfolding all_below is_space
upper_hex-IsDigits = by_table upper_digit_char 16 refl refl

module _ (digit : ℕ → Char) (base : ℕ) (d : IsDigits digit base) (two : 2 ≤ base) where
  pub parse-digit :
      (n value : ℕ) (s : String)
      → n < base
      → parse_digits base value (String.◌∷◌ (digit n) s) ≡ parse_digits base (value * base + n) s
  unfolding parse_digits
  parse-digit n value s h = rw (d.value n h) (ground (arith, h))

  pub last_digit :
      (fuel n : ℕ) (s : String)
      → ltb n base ≡ true
      → write_digits (suc fuel) digit base n s ≡ String.◌∷◌ (digit n) s
  unfolding write_digits
  last_digit fuel n s small = rw (small, mod-eq_of_lt (ltb→lt n base small)) refl

  next_digit :
      (fuel n : ℕ) (s : String)
      → ltb n base ≡ false
      → write_digits (suc fuel) digit base n s
        ≡ write_digits fuel digit base (n / base) (String.◌∷◌ (digit (n % base)) s)
  unfolding write_digits
  next_digit fuel n s large = rw large refl

  -- Without its last digit, a number needs one digit less.
  div-lt_pow : (fuel n : ℕ) → n < base ^ suc fuel → n / base < base ^ fuel
  div-lt_pow fuel n h =
      (div-lt_iff_lt-mul {k = base} {x = n} {y = base ^ fuel} (ground arith)).1
        (subst (λ m. n < m) (pow-suc base fuel) h)

  div-pos : (n : ℕ) → ltb n base ≡ false → 0 < n / base
  div-pos n large = (le-div_iff_mul-le {k = base} {x = 1} {y = n} (ground arith)).1 (ground arith)

  pub parse-write_digits :
      (fuel n : ℕ) (s : String)
      → n < base ^ fuel
      → 0 < n
      → parse_digits base 0 (write_digits fuel digit base n s) ≡ parse_digits base n s
  parse-write_digits zero n s h p = ground (arith, pow-zero base)
  parse-write_digits (suc fuel) n s h p = elim (Bool-cases (ltb n base)) [
    | inl small ↦
        rw (last_digit fuel n s small)
          (parse-digit n 0 s (ltb→lt n base small) ∙ ap (λ m. parse_digits base m s) (ground arith))
    | inr large ↦ rw (next_digit fuel n s large) (
        parse-write_digits fuel (n / base) (String.◌∷◌ (digit (n % base)) s) (div-lt_pow fuel n h)
          (div-pos n large)
        ∙ parse-digit (n % base) (n / base) s (mod-lt n (ground arith))
        ∙ ap (λ m. parse_digits base m s) (div-add-mod' n base))
  ]

  pub write_digits-IsPlain :
      (fuel n : ℕ) (s : String) → IsPlain s → IsPlain (write_digits fuel digit base n s)
  unfolding write_digits
  write_digits-IsPlain zero n s h = h
  write_digits-IsPlain (suc fuel) n s h = elim (Bool-cases (ltb n base)) [
    | inl small ↦ rw (last_digit fuel n s small) (char (d.plain n (ltb→lt n base small)) h)
    | inr large ↦ rw (next_digit fuel n s large) (
        write_digits-IsPlain fuel (n / base) (String.◌∷◌ (digit (n % base)) s)
          (char (d.plain (n % base) (mod-lt n (ground arith))) h))
  ]

  pub write_digits-longer :
      (fuel n : ℕ) (c : Char) (s : String)
      → is_empty (write_digits fuel digit base n (String.◌∷◌ c s)) ≡ false
  unfolding write_digits
  write_digits-longer zero n c s = refl
  write_digits-longer (suc fuel) n c s =
      ground (arith, write_digits-longer fuel (n / base) (digit (n % base)) (String.◌∷◌ c s))
