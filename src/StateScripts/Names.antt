-- ===== src/StateScripts/Names.antt =====
-- statescript/executor.go `get`: which files of a directory are the scripts of a state and an action.
pub mod Format
use Prim.Native.Char.{Char, code}
use Prim.Native.String.{◌++◌ as ◌++ₛ◌}
use text.Mathlib.Text.{find?}
use ota_pulse.Prelude.{
  String, Bool, true, false, not, ◌&&◌, ◌||◌, Option, none, some, List, [], ◌∷◌, leb, ◌==◌, ◌=ₛ◌,
  all,
}
use ota_pulse.Installer.Text.{is_digit, is_empty, split_where}

abbrev pub is_some {ℓ} : {A : Type ℓ} → Option A → Bool
is_some none = false
is_some (some a) = true

-- strings.Contains
unfoldable pub contains_text : String → String → Bool
contains_text s t = is_some (find? s t)

abbrev is_letter : Char → Bool
is_letter c = leb b'A' (code c) && leb (code c) b'Z' || leb b'a' (code c) && leb (code c) b'z'

unfoldable pub all_chars : (Char → Bool) → String → Bool
all_chars p String.[] = true
all_chars p (String.◌∷◌ c s) = p c && all_chars p s

abbrev pub two_digits : String → Bool
two_digits String.[] = false
two_digits (String.◌∷◌ c String.[]) = false
two_digits (String.◌∷◌ c (String.◌∷◌ d String.[])) = is_digit c && is_digit d
two_digits (String.◌∷◌ c (String.◌∷◌ d (String.◌∷◌ e s))) = false

-- White space in the sense of `\s`.
abbrev is_re_space : Char → Bool
is_re_space c = let n = code c in n == 9 || n == 10 || n == 12 || n == 13 || n == 32

-- What follows the number, split at underscores: nothing, or one character or more.
abbrev is_suffix : List String → Bool
is_suffix [] = true
is_suffix (w ∷ []) = not (is_empty w) && all_chars (λ c. not (is_re_space c)) w
is_suffix (w ∷ v ∷ ws) = all (all_chars (λ c. not (is_re_space c))) (w ∷ v ∷ ws)

-- The whole name matches `([A-Za-z]+)_(Enter|Leave|Error)_[0-9][0-9](_\S+)?`.
unfoldable pub is_name : List String → Bool
is_name (word ∷ action ∷ number ∷ suffix) =
    not (is_empty word)
    && all_chars is_letter word
    && (action =ₛ "Enter" || action =ₛ "Leave" || action =ₛ "Error")
    && two_digits number
    && is_suffix suffix
is_name _ = false

unfoldable pub matches_format : String → Bool
matches_format name = is_name (split_where (λ c. code c == b'_') name)

-- The file is a script of the state and the action.
unfoldable pub is_script_of : String → String → String → Bool
is_script_of state action name =
    contains_text name (state ++ₛ "_") && contains_text name action && matches_format name
