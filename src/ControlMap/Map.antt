-- ===== src/ControlMap/Map.antt =====
-- app/updatecontrolmap/updatecontrolmap.go: one control map, its validation and its defaults.
pub mod Laws
use Prim.Native.Char.{Char, code}
use Prim.Native.String.{len}
use ota_pulse.Prelude.{
  ℕ, zero, suc, ◌+◌, ◌*◌, ◌/◌, String, Bool, true, false, not, ◌&&◌, ◌||◌, Option, none, some, List,
  [], ◌∷◌, map, leb, ◌==◌, ◌=ₛ◌, if◌then◌else◌, keep, all, contains, lookup,
}
use ota_pulse.Prelude.Int.{ℤ, pos, negsuc, ltb_ℤ, eq_ℤ}

pub record MapState : Type 0 where
  pub action : String
  pub on_map_expire : String
  pub on_action_executed : String

-- Times are nanoseconds. The mutex and the expiration channel carry no value.
pub record UpdateControlMap : Type 0 where
  pub id : String
  pub priority : ℤ
  pub states : List (String × MapState)
  pub stamped : ℕ
  pub half_way_time : ℕ
  pub expiry_time : ℕ
  pub expired : Bool

abbrev pub second : ℕ
second = 1_000_000_000

-- `Stamp` at the time `now`. The goroutine that it starts sets `expired` later, by `expire`.
pub stamp : ℕ → ℕ → UpdateControlMap → UpdateControlMap
stamp now timeout u = record u {
  stamped = now;
  expiry_time = now + timeout * second;
  half_way_time = now + timeout * second / 2;
}

pub expire : UpdateControlMap → UpdateControlMap
expire u = record u { expired = true }

abbrev pub state_keys_valid : List String
state_keys_valid = "ArtifactInstall_Enter" ∷ "ArtifactReboot_Enter" ∷ "ArtifactCommit_Enter" ∷ []

abbrev pub actions_valid : List String
actions_valid = "continue" ∷ "force_continue" ∷ "pause" ∷ "fail" ∷ []

abbrev pub on_map_expire_valid : List String
on_map_expire_valid = "continue" ∷ "force_continue" ∷ "fail" ∷ []

abbrev pub action_default : String
action_default = "continue"

unfoldable pub on_map_expire_default : String → String
on_map_expire_default action = if action =ₛ "pause" then "fail" else action

-- A text is empty, or one of a list.
unfoldable pub unset_or_in : List String → String → Bool
unset_or_in valid s = s =ₛ "" || contains valid s

-- `UpdateControlMapState.Validate`: true is "no error".
unfoldable pub validate_state : MapState → Bool
validate_state s =
    unset_or_in actions_valid s.action
    && (unset_or_in on_map_expire_valid s.on_map_expire
        && unset_or_in actions_valid s.on_action_executed)

unfoldable pub default_to : String → String → String
default_to d s = if s =ₛ "" then d else s

-- `UpdateControlMapState.Sanitize`.
unfoldable pub sanitize_state : MapState → MapState
sanitize_state s =
    let action = default_to action_default s.action in
    record {
      action = action;
      on_map_expire = default_to (on_map_expire_default action) s.on_map_expire;
      on_action_executed = default_to action s.on_action_executed;
    }

abbrev to_lower : ℕ → ℕ
to_lower c = if leb b'A' c && leb c b'Z' then c + 32 else c

abbrev is_hex : ℕ → Bool
is_hex c = leb b'0' c && leb c b'9' || leb b'a' c && leb c b'f'

abbrev is_dash_place : ℕ → Bool
is_dash_place i = i == 8 || (i == 13 || (i == 18 || i == 23))

abbrev uuid_char : ℕ → ℕ → Bool
uuid_char i c = if is_dash_place i then c == b'-' else is_hex (to_lower c)

uuid_chars : ℕ → String → Bool
uuid_chars i String.[] = true
uuid_chars i (String.◌∷◌ c s) = uuid_char i (code c) && uuid_chars (suc i) s

-- `len` counts bytes. No character beyond ASCII has a hexadecimal digit for its lower case.
unfoldable pub is_uuid : String → Bool
unfolding uuid_chars
is_uuid s = len s == 36 && uuid_chars 0 s

-- `UpdateControlMap.Validate`: true is "no error".
unfoldable pub validate : UpdateControlMap → Bool
validate m =
    is_uuid m.id
    && (not (ltb_ℤ m.priority (negsuc 9) || ltb_ℤ (pos 10) m.priority)
        && (all (λ s. contains state_keys_valid s.0) m.states
            && all (λ s. validate_state s.1) m.states))

unfoldable pub is_default : MapState → Bool
is_default s =
    s.action =ₛ action_default
    && (s.on_map_expire =ₛ on_map_expire_default action_default
        && s.on_action_executed =ₛ action_default)

-- `UpdateControlMap.Sanitize`: the default is put in for what is unset, and a state that says
-- nothing but the default is dropped.
unfoldable pub sanitize : UpdateControlMap → UpdateControlMap
sanitize m = record m {
  states = keep (λ s. not (is_default s.1)) (map (λ s. (s.0, sanitize_state s.1)) m.states);
}

-- `UnmarshalJSON` after the decoder of encoding/json, which refuses unknown fields: `none` is an
-- error.
unfoldable pub unmarshal : UpdateControlMap → Option UpdateControlMap
unmarshal m = if validate m then some (sanitize m) else none

-- `Equal`.
abbrev pub same_map : UpdateControlMap → UpdateControlMap → Bool
same_map u v = u.id =ₛ v.id && eq_ℤ u.priority v.priority

abbrev action_of : Bool → Option MapState → String
action_of expired none = ""
action_of true (some s) = s.on_map_expire
action_of false (some s) = s.action

-- `Action`.
unfoldable pub action : UpdateControlMap → String → String
action u state = action_of u.expired (lookup state u.states)

-- What `QueryAndUpdate` does to a map that it asks: the action for the next time.
abbrev pub executed : MapState → MapState
executed s = record s { action = s.on_action_executed }
