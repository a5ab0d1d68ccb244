-- ===== src/Agent/Step.antt =====
-- app/mender.go, `transitionState`, with app/transition.go: a transition runs the state scripts that
-- belong to it, stores the state that is entered, and handles it. app/daemon.go: the loop of
-- transitions.
pub mod PastCommit
pub mod Bounds
pub mod Commit
pub mod Interrupted
pub mod Holding
pub mod Storing
use ota_pulse.Prelude.{
  ℕ, zero, suc, String, Bool, true, false, not, ◌&&◌, ◌||◌, Option, none, some, ◌=ₛ◌, if◌then◌else◌,
}
use ota_pulse.Errors.{Err, other, MenderError, new_fatal_error, new_transient_error}
use ota_pulse.Datastore.StateName.{MenderState}
use ota_pulse.Datastore.UpdateInfo.{UpdateInfo}
use ota_pulse.Agent.Transition.{Transition, iota, is_to_error, ignore_errors, differs, get_name}
use ota_pulse.Agent.State.{
  State, state_id, state_transition, state_update, permits_looping, status_downloading,
  status_installing, status_rebooting, status_failure,
}
use ota_pulse.Agent.Env.{Env, scripts, now}
use ota_pulse.Agent.Machine.{
  Machine, M, ◌>>=◌, ◌>>◌, pure, gets, modify, ask, go, Outcome, try, store_state_of,
}
use ota_pulse.Agent.HandleError.{handle_error, handle_state_data_error}
use ota_pulse.Agent.Handle.{handle}

-- The map `stateStatus`; "" is no status.
abbrev pub state_status : MenderState → String
state_status MenderState.update_fetch = status_downloading
state_status MenderState.update_store = status_downloading
state_status MenderState.update_install = status_installing
state_status MenderState.update_verify = status_rebooting
state_status MenderState.update_commit = status_rebooting
state_status MenderState.reboot = status_rebooting
state_status MenderState.after_reboot = status_rebooting
state_status MenderState.rollback = status_rebooting
state_status MenderState.rollback_reboot = status_rebooting
state_status MenderState.after_rollback_reboot = status_rebooting
state_status MenderState.update_error = status_failure
state_status _ = ""

-- The status that the scripts report, if there is any and the state has an update.
abbrev pub report_for : State → Option String
report_for to = elim (state_update to) [
  | none ↦ none
  | some u ↦ let s = state_status (state_id to) in if s =ₛ "" then none else some s
]

-- The status that error scripts report is that of the state where the error happened.
abbrev pub error_report : State → State → Option String
error_report from to = elim (report_for to) [
  | none ↦ none
  | some _ ↦ some (state_status (state_id from))
]

abbrev pub should_transit : State → State → Bool
should_transit from to = differs (state_transition from) (state_transition to)

abbrev pub can_be_forced : State → Bool
can_be_forced State.idle = true
can_be_forced State.check_wait = true
can_be_forced State.update_check = true
can_be_forced State.inventory_update = true
can_be_forced _ = false

-- How a round of the daemon ends: with the next state, with the cause of a fatal error, or with
-- an end of the loop. A request to stop is left to the caller.
pub data Round : Type 0 where
  continue_with : State → Round
  stopped : Round
  fatal_error : Err → Round

abbrev end_round : State × Bool → Round
end_round (State.error e, cancelled) =
    if e.fatal
    then fatal_error e.cause
    else if cancelled
    then stopped
    else continue_with (State.error e)
end_round (State.final, cancelled) = stopped
end_round (next, cancelled) = if cancelled then stopped else continue_with next

abbrev pub forced_state : Option State → State → State
forced_state none to = to
forced_state (some f) to = if can_be_forced to then f else to

abbrev pub is_forced : Option State → State → Bool
is_forced none to = false
is_forced (some f) to = can_be_forced to

module _ (env : Env) where
  -- `Enter`, `Leave` and `Error`: true is an error of the scripts that is not ignored.
  unfoldable pub run_scripts : Transition → String → Bool → Option String → M Bool
  unfolding get_name
  run_scripts t action ignores report =
      if not (differs t Transition.to_none) || get_name t action =ₛ ""
      then pure false
      else try env (scripts (get_name t action) action ignores report)

  -- The scripts of the state that is left.
  unfoldable pub leave_scripts : State → State → M Bool
  unfolding run_scripts
  leave_scripts from to =
      let t = state_transition from in
      if not (should_transit from to)
      then pure false
      else if is_to_error (state_transition to) && not (is_to_error t)
      then (run_scripts t "Error" true (error_report from to) >> pure false)
      else run_scripts t "Leave" (ignore_errors t) (report_for to)

  unfoldable pub enter_scripts : State → State → M Bool
  unfolding run_scripts
  enter_scripts from to =
      let t = state_transition to in
      if should_transit from to
      then run_scripts t "Enter" (ignore_errors t) (report_for to)
      else pure false

  -- An error of the scripts, or of the store, is handled by the state, and stays uncancelled.
  unfoldable pub handled_error : State → State → MenderError → M Outcome
  unfolding handle_error
  handled_error self s err = do next ← handle_error env s err; go self next

  unfoldable pub store_failed : State → UpdateInfo → Err → M Outcome
  unfolding handle_error handle_state_data_error
  store_failed to u e = do
    next ← handle_error env to (new_fatal_error e)
    (next', cancelled) ← handle_state_data_error env next false u e
    pure (record { self = to; next = next'; cancelled = cancelled })

  -- The state of an update is stored; the store is counted, unless one of the states may loop.
  unfoldable pub store_entered : State → State → M (Option (UpdateInfo × Err))
  unfolding store_state_of
  store_entered from to = elim (state_update to) [
    | none ↦ pure none
    | some u ↦ do
      e ← store_state_of env (state_id to) u (not (permits_looping to || permits_looping from))
      pure (elim e [ none ↦ none | some e' ↦ some (u, e') ])
  ]

  abbrev pub enter_and_handle : State → State → M Outcome
  enter_and_handle from to = do
    failed ← enter_scripts from to
    if failed then handled_error to to (new_transient_error other) else handle env to

  abbrev pub enter_result : State → State → Option (UpdateInfo × Err) → M Outcome
  enter_result from to none = enter_and_handle from to
  enter_result from to (some (u, e)) = store_failed to u e

  -- From the store on, where the new state is the current one.
  unfoldable pub enter_state : State → State → M Outcome
  unfolding store_entered store_failed enter_scripts handled_error
  enter_state from to = do e ← store_entered from to; enter_result from to e

  -- A state object may change itself while it is handled; the agent's current state is that object.
  abbrev keep_current : Bool → Outcome → M (State × Bool)
  keep_current entered r = do
    modify (λ s. if entered then record s { current = r.self } else s)
    pure (r.next, r.cancelled)

  abbrev pub after_leaving : State → State → Bool → M (State × Bool)
  after_leaving from to true =
      handled_error from from (new_transient_error other) >>= keep_current false
  after_leaving from to false =
      modify (λ s. record s { current = to }) >> (enter_state from to >>= keep_current true)

  unfoldable pub transition_state : State → M (State × Bool)
  unfolding leave_scripts handled_error enter_state
  transition_state to = do
    from ← gets (λ s. s.current)
    failed ← leave_scripts from to
    after_leaving from to failed

  -- The attempts to come are counted from the last one; an attempt that was forced is not counted.
  abbrev note_attempt : State → M (Unit {0})
  note_attempt State.update_check = do
    t ← ask now env.time
    modify (λ s. record s { last_update_check_attempt = t })
  note_attempt State.inventory_update = do
    t ← ask now env.time
    modify (λ s. record s { last_inventory_update_attempt = t })
  note_attempt _ = pure tt

  -- One round of the loop of `Run`: `force` is the state that a signal asks for, if any.
  unfoldable pub daemon_round : Option State → State → M Round
  unfolding transition_state
  daemon_round force to = do
    let to' = forced_state force to
    if is_forced force to then pure tt else note_attempt to'
    r ← transition_state to'
    pure (end_round r)
