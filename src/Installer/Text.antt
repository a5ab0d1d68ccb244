-- ===== src/Installer/Text.antt =====
-- Text as installer/ reads it: white space, fields, numbers in a base, the number at the end of a
-- device's path (installer/dual_rootfs_device.go `extractPartitionNumber`).
pub mod Digits
pub mod Laws
use Prim.Native.Char.{Char, code}
use Prim.Native.String.{char_at}
use ota_pulse.Prelude.{
  ℕ, zero, suc, ◌+◌, ◌-◌, ◌*◌, ◌/◌, ◌%◌, String, Bool, true, false, not, ◌&&◌, ◌||◌, Option, none,
  some, List, [], ◌∷◌, ltb, leb, ◌==◌, ◌=ₛ◌, if◌then◌else◌, keep,
}
use ota_pulse.Prelude.Int.{ℤ, pos, negsuc}

-- unicode.IsSpace
unfoldable pub is_space : Char → Bool
is_space c =
    let n = code c in
    leb 9 n && leb n 13
    || n == 32
    || n == 133
    || n == 160
    || n == 5760
    || leb 8192 n && leb n 8202
    || n == 8232
    || n == 8233
    || n == 8239
    || n == 8287
    || n == 12288

abbrev pub is_empty : String → Bool
is_empty String.[] = true
is_empty (String.◌∷◌ c s) = false

unfoldable pub trim_left : String → String
trim_left String.[] = ""
trim_left (String.◌∷◌ c s) = let rest = trim_left s in if is_space c then rest else String.◌∷◌ c s

unfoldable pub trim_right : String → String
trim_right String.[] = ""
trim_right (String.◌∷◌ c s) =
    let rest = trim_right s in if is_empty rest && is_space c then "" else String.◌∷◌ c rest

-- strings.TrimSpace
unfoldable pub trim_space : String → String
unfolding trim_left trim_right
trim_space s = trim_right (trim_left s)

abbrev pub put_first : Char → List String → List String
put_first c [] = String.◌∷◌ c "" ∷ []
put_first c (w ∷ ws) = String.◌∷◌ c w ∷ ws

-- The pieces between the characters that pass a test; never empty.
unfoldable pub split_where : (Char → Bool) → String → List String
split_where p String.[] = "" ∷ []
split_where p (String.◌∷◌ c s) =
    let rest = split_where p s in if p c then "" ∷ rest else put_first c rest

-- strings.Split at the end of a line
unfoldable pub lines : String → List String
unfolding split_where
lines = split_where (λ c. code c == 10)

-- strings.Fields
unfoldable pub fields : String → List String
unfolding split_where
fields s = keep (λ w. not (is_empty w)) (split_where is_space s)

-- strings.HasSuffix
unfoldable pub has_suffix : String → String → Bool
has_suffix String.[] t = is_empty t
has_suffix (String.◌∷◌ c s) t = String.◌∷◌ c s =ₛ t || has_suffix s t

abbrev pub is_digit : Char → Bool
is_digit c = leb b'0' (code c) && leb (code c) b'9'

-- What follows the last character that is no digit, if there is one.
unfoldable pub after_last_other : String → Option String
after_last_other String.[] = none
after_last_other (String.◌∷◌ c s) = elim (after_last_other s) [
  | some t ↦ some t
  | none ↦ if is_digit c then none else some s
]

-- `extractPartitionNumber`: a path of digits alone has no number.
unfoldable pub extract_partition_number : String → String
unfolding after_last_other trim_space
extract_partition_number device = elim (after_last_other (trim_space device)) [
  | some t ↦ t
  | none ↦ ""
]

-- The digits at the end, of a path of digits alone all of it: `TrimRight` with the digits.
unfoldable pub trailing_digits : String → String
unfolding after_last_other
trailing_digits s = elim (after_last_other s) [ some t ↦ t | none ↦ s ]

-- A letter counts on from 10, and what is neither is no digit in any base.
abbrev pub digit_value : Char → ℕ
digit_value c =
    let n = code c in
    if is_digit c
    then n - b'0'
    else if leb b'a' n && leb n b'z'
    then n - b'a' + 10
    else if leb b'A' n && leb n b'Z'
    then n - b'A' + 10
    else 36

unfoldable pub parse_digits : ℕ → ℕ → String → Option ℕ
parse_digits base value String.[] = some value
parse_digits base value (String.◌∷◌ c s) =
    let rest = parse_digits base (value * base + digit_value c) s in
    if ltb (digit_value c) base then rest else none

unfoldable pub parse_uint : ℕ → String → Option ℕ
unfolding parse_digits
parse_uint base s = if is_empty s then none else parse_digits base 0 s

abbrev pub cutoff : ℕ
cutoff = 9_223_372_036_854_775_808

abbrev minus : ℕ → ℤ
minus zero = pos 0
minus (suc n) = negsuc n

abbrev pub in_range : Bool → Option ℕ → Option ℤ
in_range negative none = none
in_range true (some n) = if leb n cutoff then some (minus n) else none
in_range false (some n) = if ltb n cutoff then some (pos n) else none

-- strconv.ParseInt to 64 bits, in a base that is given
unfoldable pub parse_int : ℕ → String → Option ℤ
unfolding parse_uint
parse_int base String.[] = none
parse_int base (String.◌∷◌ c s) =
    if code c == b'+'
    then in_range false (parse_uint base s)
    else if code c == b'-'
    then in_range true (parse_uint base s)
    else in_range false (parse_uint base (String.◌∷◌ c s))

-- strconv.Atoi, where `int` has 64 bits
unfoldable pub atoi : String → Option ℤ
unfolding parse_int
atoi = parse_int 10

-- strconv's table of digits, at a digit below 16
abbrev pub digit_char : ℕ → Char
digit_char n = char_at "0123456789abcdef" n

abbrev pub upper_digit_char : ℕ → Char
upper_digit_char n = char_at "0123456789ABCDEF" n

-- The digits of a number in front of a text, with as many digits at most as there is fuel.
unfoldable pub write_digits : ℕ → (ℕ → Char) → ℕ → ℕ → String → String
write_digits zero digit base n s = s
write_digits (suc fuel) digit base n s =
    let s' = String.◌∷◌ (digit (n % base)) s in
    let rest = write_digits fuel digit base (n / base) s' in if ltb n base then s' else rest

-- A number of 64 bits has no more digits, in base 2 or above.
unfoldable pub digits : (ℕ → Char) → ℕ → ℕ → String
unfolding write_digits
digits digit base n = write_digits 64 digit base n ""

-- strconv.FormatInt in base 10 or 16
unfoldable pub format_int : ℕ → ℤ → String
unfolding digits
format_int base (pos n) = digits digit_char base n
format_int base (negsuc n) = String.◌∷◌ "-" (digits digit_char base (suc n))

-- `%X` of a number that is not negative
unfoldable pub format_upper_hex : ℕ → String
unfolding digits
format_upper_hex n = digits upper_digit_char 16 n
