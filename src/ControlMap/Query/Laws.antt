-- ===== src/ControlMap/Query/Laws.antt =====
-- app/updatemanager.go: which of the actions that control maps ask for wins.
use ota_pulse.Prelude.{
  String, ◌≡◌, Bool, false, ◌||◌, List, [], ◌∷◌, ◌=ₛ◌, arith, if◌then◌else◌, contains, eq_iff,
}
use ota_pulse.ControlMap.Query.{action_list_loop, query_action_list}

-- The winner among actions, by what is asked for at all.
abbrev pub winner : Bool → Bool → Bool → String
winner fail pause force =
    if fail then "fail" else if pause then "pause" else if force then "continue" else ""

action_list_loop-winner :
    (pause force : Bool) (es : List String)
    → action_list_loop pause force es
      ≡ winner
          (contains es "fail")
          (pause || contains es "pause")
          (force || contains es "force_continue")
unfolding action_list_loop contains
action_list_loop-winner pause force [] = ground arith
action_list_loop-winner pause force (e ∷ es) = ground (
  arith,
  eq_iff e "fail",
  eq_iff e "pause",
  eq_iff e "force_continue",
  action_list_loop-winner (pause || e =ₛ "pause") (force || e =ₛ "force_continue") es,
)

-- Whatever their order, a failure wins over a pause, a pause over a forced continuation, and other
-- actions decide nothing.
pub query_action_list-winner :
    (es : List String)
    → query_action_list es
      ≡ winner (contains es "fail") (contains es "pause") (contains es "force_continue")
unfolding query_action_list
query_action_list-winner es = action_list_loop-winner false false es
