-- ===== src/StateScripts/Names/Format.antt =====
-- statescript/executor.go `get`: what the name of a script of a state and an action looks like.
use Prim.Native.Char.{Char, code}
use Prim.Native.String.{◌++◌ as ◌++ₛ◌}
use mathlib.Core.Path.{subst}
use text.Mathlib.TextFind.{find_cases}
use ota_pulse.Prelude.{
  ◌≡◌, ◌≢◌, sym, ap, String, true, false, ◌||◌, inl, inr, List, [], ◌∷◌, arith, ◌==◌, ◌=ₛ◌, eq_iff,
  Bool-cases,
}
use ota_pulse.Installer.Text.{is_digit, is_empty, split_where}
use ota_pulse.StateScripts.Names.{contains_text, two_digits, is_name, matches_format, is_script_of}

-- A text stands somewhere in another.
abbrev pub OccursIn : String → String → Type 0
OccursIn t s = (before : String) × (after : String) × (s ≡ before ++ₛ (t ++ₛ after))

pub data IsAction : String → Type 0 where
  enter : IsAction "Enter"
  leave : IsAction "Leave"
  error : IsAction "Error"

pub data IsNumber : String → Type 0 where
  number :
      (c d : Char)
      → is_digit c ≡ true
      → is_digit d ≡ true
      → IsNumber (String.◌∷◌ c (String.◌∷◌ d ""))

-- A word, an action and a number of two digits, with more after them or not.
pub data IsFormat : List String → Type 0 where
  format :
      {word action digits : String} (rest : List String)
      → word ≢ ""
      → IsAction action
      → IsNumber digits
      → IsFormat (word ∷ action ∷ digits ∷ rest)

-- The name of a script of a state and an action.
pub record IsScriptName (state action name : String) : Type 0 where
  pub has_state : OccursIn (state ++ₛ "_") name
  pub has_action : OccursIn action name
  pub has_format : IsFormat (split_where (λ c. code c == b'_') name)

contains_text-OccursIn : (s t : String) → contains_text s t ≡ true → OccursIn t s
unfolding contains_text
contains_text-OccursIn s t h = elim (find_cases s t) [
  | inl hit ↦ (hit.0, hit.1, hit.2)
  | inr missed ↦ absurd (ground arith)
]

is_action : (a : String) → (a =ₛ "Enter" || a =ₛ "Leave" || a =ₛ "Error") ≡ true → IsAction a
is_action a h = elim (Bool-cases (a =ₛ "Enter")) [
  | inl e ↦ subst IsAction (sym ((eq_iff a "Enter").0 e)) enter
  | inr not_enter ↦ elim (Bool-cases (a =ₛ "Leave")) [
    | inl e ↦ subst IsAction (sym ((eq_iff a "Leave").0 e)) leave
    | inr not_leave ↦ subst IsAction (sym ((eq_iff a "Error").0 (ground arith))) error
  ]
]

is_number : (s : String) → two_digits s ≡ true → IsNumber s
is_number String.[] h = absurd (ground arith)
is_number (String.◌∷◌ c String.[]) h = absurd (ground arith)
is_number (String.◌∷◌ c (String.◌∷◌ d String.[])) h = number c d (ground arith) (ground arith)
is_number (String.◌∷◌ c (String.◌∷◌ d (String.◌∷◌ e s))) h = absurd (ground arith)

is_word : (w : String) → is_empty w ≡ false → w ≢ ""
is_word String.[] h e = absurd (ground arith)
is_word (String.◌∷◌ c s) h e = let wrong : false ≡ true = ap is_empty e in absurd (ground arith)

is_name-IsFormat : (ws : List String) → is_name ws ≡ true → IsFormat ws
unfolding is_name
is_name-IsFormat [] h = absurd (ground arith)
is_name-IsFormat (w ∷ []) h = absurd (ground arith)
is_name-IsFormat (w ∷ a ∷ []) h = absurd (ground arith)
is_name-IsFormat (w ∷ a ∷ n ∷ rest) h =
    format rest (is_word w (ground arith)) (is_action a (ground arith)) (is_number n (ground arith))

pub is_script_of-IsScriptName :
    (state action name : String)
    → is_script_of state action name ≡ true
    → IsScriptName state action name
unfolding is_script_of matches_format
is_script_of-IsScriptName state action name h = record {
  has_state = contains_text-OccursIn name (state ++ₛ "_") (ground arith);
  has_action = contains_text-OccursIn name action (ground arith);
  has_format = is_name-IsFormat (split_where (λ c. code c == b'_') name) (ground arith);
}
