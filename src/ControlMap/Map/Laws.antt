-- ===== src/ControlMap/Map/Laws.antt =====
-- What validation and the defaults give.
use mathlib.Core.Path.{subst}
use ota_pulse.Prelude.{
  String, ◌≡◌, ◌≢◌, refl, true, false, not, some, List, [], ◌∷◌, map, arith, ◌=ₛ◌, eq_iff, keep,
  all, contains, lookup, str_ne, Bool-cases, Option-cases, inl, inr,
}
use ota_pulse.ControlMap.Map.{
  MapState, UpdateControlMap, actions_valid, unset_or_in, default_to, action_default,
  on_map_expire_default, on_map_expire_valid, validate_state, sanitize_state, is_default, validate,
  sanitize, unmarshal, action, expire,
}

-- All three actions are set, and valid.
pub record IsSound (s : MapState) : Type 0 where
  pub action_valid : contains actions_valid s.action ≡ true
  pub expire_valid : contains on_map_expire_valid s.on_map_expire ≡ true
  pub executed_valid : contains actions_valid s.on_action_executed ≡ true

contains-default_to :
    (valid : List String) (d s : String)
    → contains valid d ≡ true
    → unset_or_in valid s ≡ true
    → contains valid (default_to d s) ≡ true
unfolding default_to unset_or_in
contains-default_to valid d s hd hs = ground arith

on_map_expire_default-valid :
    (a : String)
    → contains actions_valid a ≡ true
    → contains on_map_expire_valid (on_map_expire_default a) ≡ true
unfolding on_map_expire_default contains
on_map_expire_default-valid a h = elim (Bool-cases (a =ₛ "pause")) [
  | inl e ↦ rw (e, on_map_expire_default) refl
  | inr e ↦ rw (e, on_map_expire_default) (ground (arith, eq_iff a "pause", eq_iff "pause" a))
]

sanitize_state-IsSound : (s : MapState) → validate_state s ≡ true → IsSound (sanitize_state s)
unfolding validate_state sanitize_state contains
sanitize_state-IsSound s h =
    let set = contains-default_to actions_valid action_default s.action refl (ground arith) in
    record {
      action_valid = set;
      expire_valid =
          contains-default_to on_map_expire_valid _ s.on_map_expire
            (on_map_expire_default-valid _ set) (ground arith);
      executed_valid = contains-default_to actions_valid _ s.on_action_executed set (ground arith);
    }

AllSound : List (String × MapState) → Type 0
AllSound l = (k : String) (s : MapState) → lookup k l ≡ some s → IsSound s × (is_default s ≡ false)

AllSound-sanitize :
    (l : List (String × MapState))
    → all (λ s. validate_state s.1) l ≡ true
    → AllSound (keep (λ s. not (is_default s.1)) (map (λ s. (s.0, sanitize_state s.1)) l))
unfolding AllSound lookup keep
AllSound-sanitize [] h k s e = cc
AllSound-sanitize ((j, x) ∷ l) h k s e = elim (Bool-cases (is_default (sanitize_state x))) [
  | inl d ↦ AllSound-sanitize l (ground arith) k s (ground arith)
  | inr d ↦ elim (Bool-cases (j =ₛ k)) [
    | inl same ↦
        let sound = sanitize_state-IsSound x (ground arith) in
        let found : sanitize_state x ≡ s = ground arith in rw (← found) (sound, d)
    | inr ne ↦ AllSound-sanitize l (ground arith) k s (ground arith)
  ]
]

-- A control map that was decoded and accepted has, for every state that it names, three valid
-- actions, and does not merely repeat the default.
pub unmarshal-IsSound :
    (m : UpdateControlMap) {m' : UpdateControlMap} (k : String) (s : MapState)
    → unmarshal m ≡ some m'
    → lookup k m'.states ≡ some s
    → IsSound s × (is_default s ≡ false)
unfolding unmarshal validate sanitize AllSound
unmarshal-IsSound m k s u e = AllSound-sanitize m.states (ground arith) k s (ground arith)

-- Once it has expired, an accepted control map never asks for a pause.
pub expired_never_pauses :
    (m : UpdateControlMap) {m' : UpdateControlMap} (k : String)
    → unmarshal m ≡ some m'
    → action (expire m') k ≢ "pause"
unfolding action expire contains
expired_never_pauses m {m'} k u e = elim (Option-cases (lookup k m'.states)) [
  | inl missing ↦ str_ne "" "pause" refl (rw missing at e)
  | inr (s, found) ↦
      let paused : s.on_map_expire ≡ "pause" = rw found at e in
      let valid = (unmarshal-IsSound m k s u found).0.expire_valid in
      cc (subst (λ x. contains on_map_expire_valid x ≡ true) paused valid)
]
