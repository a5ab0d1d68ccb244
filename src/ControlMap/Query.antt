-- ===== src/ControlMap/Query.antt =====
-- app/updatemanager.go, `QueryAndUpdate`: the action that the control maps ask for before a state
-- is entered.
pub mod Laws
pub mod Objections
use ota_pulse.Prelude.{
  String, Bool, true, false, not, ◌&&◌, ◌||◌, Option, none, some, List, [], ◌∷◌, ◌++◌, map, ◌=ₛ◌,
  if◌then◌else◌, keep, lookup, insert,
}
use ota_pulse.Prelude.Int.{ℤ, eq_ℤ}
use ota_pulse.ControlMap.Map.{MapState, UpdateControlMap, action, executed}
use ota_pulse.ControlMap.Pool.{Pool, save_to_store}

-- The loop of `uniquePriorities`: a priority is taken where it differs from the one before.
priorities_after : ℤ → List UpdateControlMap → List ℤ
priorities_after old [] = []
priorities_after old (u ∷ us) =
    let rest = priorities_after u.priority us in
    if eq_ℤ u.priority old then rest else u.priority ∷ rest

pub unique_priorities : List UpdateControlMap → List ℤ
unfolding priorities_after
unique_priorities [] = []
unique_priorities (u ∷ us) = u.priority ∷ priorities_after u.priority (u ∷ us)

-- The loop of `queryActionList`, with its two flags.
action_list_loop : Bool → Bool → List String → String
action_list_loop pause force [] = if pause then "pause" else if force then "continue" else ""
action_list_loop pause force (e ∷ es) =
    let rest = action_list_loop (pause || e =ₛ "pause") (force || e =ₛ "force_continue") es in
    if e =ₛ "fail" then "fail" else rest

unfoldable pub query_action_list : List String → String
unfolding action_list_loop
query_action_list es = action_list_loop false false es

abbrev pub has_state : String → UpdateControlMap → Bool
has_state state u = elim (lookup state u.states) [ none ↦ false | some _ ↦ true ]

-- The two predicates of the inner query.
abbrev pub is_asked : ℤ → String → UpdateControlMap → Bool
is_asked priority state u = eq_ℤ u.priority priority && has_state state u

abbrev upgrade_state : String → Option MapState → UpdateControlMap → UpdateControlMap
upgrade_state state none u = u
upgrade_state state (some s) u = record u { states = insert state (executed s) u.states }

-- The map's action for the state becomes the one for after it was executed.
pub upgrade : ℤ → String → UpdateControlMap → UpdateControlMap
upgrade priority state u =
    if is_asked priority state u then upgrade_state state (lookup state u.states) u else u

-- The actions of the maps of one priority, in their order.
pub collect : ℤ → String → List UpdateControlMap → List String
collect priority state maps = map (λ u. action u state) (keep (is_asked priority state) maps)

-- The loop over the priorities, with the actions collected so far.
pub query_priorities :
    String → List ℤ → List String → List UpdateControlMap → String × List UpdateControlMap
unfolding collect upgrade query_action_list
query_priorities state [] actions maps = ("continue", maps)
query_priorities state (p ∷ ps) actions maps =
    let actions' = actions ++ collect p state maps in
    let maps' = map (upgrade p state) maps in
    let v = query_action_list actions' in
    let rest = query_priorities state ps actions' maps' in
    if not (v =ₛ "") then (v, maps') else rest

-- `sort` is sort.Slice with the priorities falling; it sorts the pool in place.
unfoldable pub query_and_update :
    (List UpdateControlMap → List UpdateControlMap) → Bool → String → Pool → String × Pool
unfolding query_priorities unique_priorities save_to_store
query_and_update sort writes state c =
    let sorted = sort c.maps in
    let (v, maps') = query_priorities state (unique_priorities sorted) [] sorted in
    (v, save_to_store writes (record c { maps = maps' }))
