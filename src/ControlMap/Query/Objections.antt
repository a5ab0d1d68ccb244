-- ===== src/ControlMap/Query/Objections.antt =====
-- app/updatemanager.go: control maps of the highest priority that hold an update up.
use mathlib.Core.List.{Memᴰ}
use ota_pulse.Prelude.{
  none, arith, lookup, Option-cases, ◌≡◌, refl, String, Bool, true, false, not, List, [], ◌∷◌, map,
  keep, ◌=ₛ◌, contains, contains_of_Mem, Bool-cases, inl, inr, if◌then◌else◌,
}
use ota_pulse.Prelude.Int.{ℤ, eq_ℤ}
use ota_pulse.ControlMap.Map.{UpdateControlMap, action}
use ota_pulse.ControlMap.Pool.{Pool}
use ota_pulse.ControlMap.Query.{
  has_state, is_asked, collect, query_action_list, query_priorities, unique_priorities,
  query_and_update,
}
use ota_pulse.ControlMap.Query.Laws.{query_action_list-winner}

-- The answers that hold an update up.
pub data HoldsUp : String → Type 0 where
  pauses : HoldsUp "pause"
  fails : HoldsUp "fail"

not_empty : {v : String} → HoldsUp v → v =ₛ "" ≡ false
not_empty pauses = refl
not_empty fails = refl

action-none :
    (u : UpdateControlMap) (state : String)
    → lookup state u.states ≡ none
    → (action u state =ₛ "") ≡ true
unfolding action
action-none u state e = rw e (ground arith)

-- A map without an action for the state has none that holds the update up.
is_asked-HoldsUp :
    (priority : ℤ) (state : String) (u : UpdateControlMap)
    → eq_ℤ u.priority priority ≡ true
    → HoldsUp (action u state)
    → is_asked priority state u ≡ true
is_asked-HoldsUp priority state u same holds =
    let some_action = not_empty holds in
    elim (Option-cases (lookup state u.states)) [
      | inl e ↦ absurd (ground (arith, action-none u state e))
      | inr (s, e) ↦ rw same (rw (e, has_state) refl)
    ]

kept_if :
    (u x : UpdateControlMap) (xs : List UpdateControlMap) (state : String) (b : Bool)
    → Memᴰ (action u state) (map (λ u. action u state) xs)
    → Memᴰ (action u state) (map (λ u. action u state) (if b then x ∷ xs else xs))
kept_if u x xs state true m = Memᴰ.tail m
kept_if u x xs state false m = m

collect-Mem :
    (priority : ℤ) (state : String) (maps : List UpdateControlMap) {u : UpdateControlMap}
    → Memᴰ u maps
    → is_asked priority state u ≡ true
    → Memᴰ (action u state) (collect priority state maps)
unfolding collect keep
collect-Mem priority state [] m asked = elim m [ ]
collect-Mem priority state (x ∷ xs) {u} (Memᴰ.head e) asked = rw (← e) (rw asked (Memᴰ.head refl))
collect-Mem priority state (x ∷ xs) {u} (Memᴰ.tail m) asked =
    kept_if u x (keep (is_asked priority state) xs) state (is_asked priority state x)
      (collect-Mem priority state xs m asked)

query_action_list-HoldsUp :
    (es : List String) {e : String} → HoldsUp e → Memᴰ e es → HoldsUp (query_action_list es)
query_action_list-HoldsUp es pauses m =
    rw (query_action_list-winner es, contains_of_Mem m)
      (elim (Bool-cases (contains es "fail")) [ inl e ↦ rw e fails | inr e ↦ rw e pauses ])
query_action_list-HoldsUp es fails m = rw (query_action_list-winner es, contains_of_Mem m) fails

decided :
    (v : String) (maps : List UpdateControlMap) (rest : String × List UpdateControlMap)
    → HoldsUp v
    → HoldsUp (if not (v =ₛ "") then (v, maps) else rest).0
decided _ maps rest pauses = pauses
decided _ maps rest fails = fails

-- If a map of the highest priority objects, then the query holds the update up.
pub query_and_update-HoldsUp :
    (sort : List UpdateControlMap → List UpdateControlMap) (writes : Bool) (state : String)
    (c : Pool) {first u : UpdateControlMap} {rest : List UpdateControlMap}
    → sort c.maps ≡ first ∷ rest
    → Memᴰ u (first ∷ rest)
    → eq_ℤ u.priority first.priority ≡ true
    → HoldsUp (action u state)
    → HoldsUp (query_and_update sort writes state c).0
unfolding query_and_update query_priorities unique_priorities
query_and_update-HoldsUp sort writes state c {first} {u} {rest} sorted m same holds =
    let asked = is_asked-HoldsUp first.priority state u same holds in
    let answer =
      query_action_list-HoldsUp (collect first.priority state (first ∷ rest)) holds
        (collect-Mem first.priority state (first ∷ rest) m asked) in
    rw sorted (decided _ _ _ answer)
