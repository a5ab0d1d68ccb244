-- ===== src/Installer/Text/Laws.antt =====
-- Laws of the numbers and the trimming of installer/.
use Prim.Native.Char.{Char, code}
use Prim.Native.String.{◌++◌ as ◌++ₛ◌}
use text.Mathlib.TextLemmas.{cons-append}
use ota_pulse.Prelude.{
  ℕ, zero, suc, ◌/◌, ◌%◌, ◌^◌, ◌<◌, ◌≤◌, ◌≡◌, refl, sym, ap, ◌∙◌, String, Bool, true, false, not,
  Option, ◌&&◌, ◌==◌, Option, none, some, if◌then◌else◌, arith,
}
use ota_pulse.Prelude.Int.{pos}
use ota_pulse.Installer.Text.{
  digits, write_digits, parse_digits, parse_uint, parse_int, atoi, format_int, format_upper_hex,
  cutoff, in_range, is_space, is_empty, trim_left, trim_right, trim_space,
}
use ota_pulse.Installer.Text.Digits.{
  is_plain, IsPlain, empty, char, IsDigits, decimal-IsDigits, upper_hex-IsDigits, last_digit,
  parse-digit, parse-write_digits, write_digits-IsPlain, write_digits-longer,
}

none_of_three :
    (a b c : Bool) → not a && not b && not c ≡ true → (a ≡ false) × (b ≡ false) × (c ≡ false)
none_of_three a b c h = ground arith

module _ (c : Char) (p : is_plain c ≡ true) where
  plain_facts : (is_space c ≡ false) × (code c == b'+' ≡ false) × (code c == b'-' ≡ false)
  plain_facts = none_of_three (is_space c) (code c == b'+') (code c == b'-') p

trim_right-IsPlain : {s : String} → IsPlain s → trim_right (s ++ₛ "\n") ≡ s
unfolding trim_right is_space
trim_right-IsPlain empty = refl
trim_right-IsPlain (char {c = c} {s = s} p rest) =
    rw (cons-append c s "\n", trim_right-IsPlain rest, (plain_facts c p).0) (ground arith)

trim_left-first :
    (c : Char) (s : String) → is_space c ≡ false → trim_left (String.◌∷◌ c s) ≡ String.◌∷◌ c s
unfolding trim_left
trim_left-first c s e = rw e refl

-- A plain text is read back as it was written.
pub trim_space-IsPlain : {s : String} → IsPlain s → trim_space (s ++ₛ "\n") ≡ s
unfolding trim_space trim_left trim_right is_space
trim_space-IsPlain empty = refl
trim_space-IsPlain (char {c = c} {s = s} p rest) =
    ap (λ t. trim_right (trim_left t)) (cons-append c s "\n")
    ∙ ap trim_right (trim_left-first c (s ++ₛ "\n") (plain_facts c p).0)
    ∙ ap trim_right (sym (cons-append c s "\n"))
    ∙ trim_right-IsPlain (char p rest)

parse_int-IsPlain :
    (base : ℕ) {s : String}
    → IsPlain s
    → is_empty s ≡ false
    → parse_int base s ≡ in_range false (parse_digits base 0 s)
unfolding parse_int
parse_int-IsPlain base empty e = ground arith
parse_int-IsPlain base (char {c = c} {s = s} p rest) e =
    rw ((plain_facts c p).1, (plain_facts c p).2) refl

module _ {digit : ℕ → Char} {base : ℕ} (d : IsDigits digit base) (two : 2 ≤ base) where
  digits-IsPlain : (n : ℕ) → IsPlain (digits digit base n)
  unfolding digits
  digits-IsPlain n = write_digits-IsPlain digit base d two 64 n "" empty

  is_empty-digits : (n : ℕ) → is_empty (digits digit base n) ≡ false
  unfolding digits write_digits
  is_empty-digits n =
      ground (arith, write_digits-longer digit base d two 63 (n / base) (digit (n % base)) "")

  parse_digits-digits : (n : ℕ) → n < base ^ 64 → parse_digits base 0 (digits digit base n) ≡ some n
  unfolding digits parse_digits
  parse_digits-digits zero h =
      ap (parse_digits base 0) (last_digit digit base d two 63 0 "" (ground arith))
      ∙ parse-digit digit base d two 0 0 "" (ground arith)
      ∙ ground arith
  parse_digits-digits (suc n) h = parse-write_digits digit base d two 64 (suc n) "" h (ground arith)

  parse_int-digits :
      (n : ℕ)
      → n < cutoff
      → cutoff ≤ base ^ 64
      → parse_int base (digits digit base n) ≡ some (pos n)
  parse_int-digits n small wide =
      parse_int-IsPlain base (digits-IsPlain n) (is_empty-digits n)
      ∙ ap (in_range false) (parse_digits-digits n (ground arith))
      ∙ ground arith

-- What is written in decimal is read back as the same number.
pub atoi-format_int : (n : ℕ) → n < cutoff → atoi (format_int 10 (pos n)) ≡ some (pos n)
unfolding atoi format_int
atoi-format_int n h = parse_int-digits decimal-IsDigits (ground arith) n h (ground arith)

pub parse_int-format_upper_hex :
    (n : ℕ) → n < cutoff → parse_int 16 (format_upper_hex n) ≡ some (pos n)
unfolding format_upper_hex
parse_int-format_upper_hex n h =
    parse_int-digits upper_hex-IsDigits (ground arith) n h (ground arith)

pub format_int-IsPlain : (n : ℕ) → IsPlain (format_int 10 (pos n))
unfolding format_int
format_int-IsPlain n = digits-IsPlain decimal-IsDigits (ground arith) n

pub is_empty-format_int : (n : ℕ) → is_empty (format_int 10 (pos n)) ≡ false
unfolding format_int
is_empty-format_int n = is_empty-digits decimal-IsDigits (ground arith) n

in_range-lt :
    (negative : Bool) (o : Option ℕ) {n : ℕ} → in_range negative o ≡ some (pos n) → n < cutoff
in_range-lt negative none e = ground arith
in_range-lt false (some m) e = ground arith
in_range-lt true (some zero) e = ground arith
in_range-lt true (some (suc m)) e = ground arith

by_sign-lt :
    (plus minus : Bool) (a b c : Option ℕ) {n : ℕ}
    → (if plus then in_range false a else (if minus then in_range true b else in_range false c))
      ≡ some (pos n)
    → n < cutoff
by_sign-lt true minus a b c e = in_range-lt false a e
by_sign-lt false true a b c e = in_range-lt true b e
by_sign-lt false false a b c e = in_range-lt false c e

-- What is read has its value in range.
pub atoi-lt : (s : String) {n : ℕ} → atoi s ≡ some (pos n) → n < cutoff
unfolding atoi parse_int
atoi-lt String.[] e = ground arith
atoi-lt (String.◌∷◌ c s) e =
    by_sign-lt (code c == b'+') (code c == b'-') (parse_uint 10 s) (parse_uint 10 s)
      (parse_uint 10 (String.◌∷◌ c s)) e
