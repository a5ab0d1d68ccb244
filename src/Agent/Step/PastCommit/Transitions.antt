-- ===== src/Agent/Step/PastCommit/Transitions.antt =====
-- app/mender.go, `transitionState`, into the states past the commit.
use mathlib.Core.Path.{subst}
use ota_pulse.Prelude.{
  ◌≡◌, refl, sym, ◌∙◌, Bool, true, false, Option, none, some, List, ◌∷◌, arith, if◌then◌else◌,
}
use ota_pulse.Errors.{
  Err, max_state_data_store_count_exceeded, MenderError, new_transient_error, other,
}
use ota_pulse.Datastore.StateName.{MenderState}
use ota_pulse.Datastore.UpdateInfo.{UpdateInfo}
use ota_pulse.Datastore.Db.{Db, StateData, no_faults}
use ota_pulse.Datastore.StateData.{store_state_data}
use ota_pulse.Datastore.StateData.Laws.{read-store_state_data}
use ota_pulse.Agent.State.{State}
use ota_pulse.Agent.Env.{Env, Call, store_state}
use ota_pulse.Agent.Machine.{Machine, ◌>>=◌, ◌>>◌, pure, gets, modify, store_state_of}
use ota_pulse.Agent.HandleError.{roll_back_or_fail, handle_error, handle_state_data_error}
use ota_pulse.Agent.Handle.{handle}
use ota_pulse.Agent.Step.{
  leave_scripts, store_entered, store_failed, handled_error, enter_and_handle, enter_result,
  after_leaving, after_leaving, enter_state, transition_state,
}
use ota_pulse.Agent.Step.PastCommit.{
  after_failure, IsFinishing, in_first_commit, in_commit, in_cleanup, in_report, in_retry,
  IsFinishingOrIdle, finishing, rollbacks, IsQuiet, Leads, Any, pure-IsQuiet, bind-IsQuiet,
  if-IsQuiet,
}
use ota_pulse.Agent.Step.PastCommit.Handlers.{broken-IsQuiet, handle-keeps_committed}
use ota_pulse.Agent.Step.PastCommit.Scripts.{
  HasCommitted, past_commit, ErrorScriptsPass, LeaveResult, left_well, commit_leave_failed,
  leave_scripts-IsQuiet, enter_scripts-IsQuiet,
}

abbrev pub StoreWorks : Env → Type 0
StoreWorks env = (calls : List Call) → env.txn_faults calls ≡ no_faults

-- The error of a store, if any, is that it was one too many.
data OnlyExceeded : Option Err → Type 0 where
  stored_well : OnlyExceeded none
  exceeded_only : OnlyExceeded (some max_state_data_store_count_exceeded)

-- The outcome of storing the state that is entered.
data StoreResult : Option (UpdateInfo × Err) → Type 0 where
  entered_well : StoreResult none
  entered_over : {u : UpdateInfo} → StoreResult (some (u, max_state_data_store_count_exceeded))

exceeded_if :
    (b : Bool) → OnlyExceeded (if b then some max_state_data_store_count_exceeded else none)
exceeded_if true = exceeded_only
exceeded_if false = stored_well

store-OnlyExceeded :
    (db : Db) (sd : StateData) (inc : Bool) → OnlyExceeded (store_state_data no_faults db sd inc).1
store-OnlyExceeded db sd inc =
    subst OnlyExceeded (sym (read-store_state_data db sd inc).1) (exceeded_if _)

-- What holds of a machine and of what a transition makes of it.
abbrev pub StaysCommitted : Machine → (State × Bool) × Machine → Type 0
StaysCommitted m r =
    IsFinishingOrIdle r.0.0 × (rollbacks r.1.trace ≡ rollbacks m.trace) × HasCommitted r.1.current

module _ (env : Env) (pass : ErrorScriptsPass env) (works : StoreWorks env) where
  -- A store without faults fails at most by reaching the maximum.
  store_state_of-IsQuiet :
      (name : MenderState) (u : UpdateInfo) (inc : Bool)
      → IsQuiet OnlyExceeded (store_state_of env name u inc)
  unfolding store_state_of rollbacks
  store_state_of-IsQuiet name u inc = record {
    run_quiet = λ s.
        let sd : StateData = record { version = 0; name = name; update_info = u } in
        (
          subst (λ f. OnlyExceeded (store_state_data f s.db sd inc).1)
              (sym (works (store_state name u inc ∷ s.trace))) (store-OnlyExceeded s.db sd inc),
          ground arith,
          refl,
        );
  }

  roll_back_or_fail-IsQuiet :
      (u : UpdateInfo) (e : MenderError) → IsQuiet Any (roll_back_or_fail env u e)
  unfolding roll_back_or_fail
  roll_back_or_fail-IsQuiet u e = if-IsQuiet _ (pure-IsQuiet _ tt) (broken-IsQuiet env u _ tt)

  handle_error-IsQuiet :
      {s : State} (e : MenderError) → IsFinishing s → IsQuiet Any (handle_error env s e)
  unfolding handle_error
  handle_error-IsQuiet e (in_first_commit {u}) = broken-IsQuiet env u _ tt
  handle_error-IsQuiet e (in_commit {u}) = broken-IsQuiet env u _ tt
  handle_error-IsQuiet e (in_cleanup {u = u} _) = roll_back_or_fail-IsQuiet u e
  handle_error-IsQuiet e (in_report {r}) = roll_back_or_fail-IsQuiet r.update e
  handle_error-IsQuiet e in_retry = pure-IsQuiet _ tt

  store_failed-IsQuiet :
      {to : State} (u : UpdateInfo)
      → IsFinishing to
      → IsQuiet Leads (store_failed env to u max_state_data_store_count_exceeded)
  unfolding store_failed handle_state_data_error
  store_failed-IsQuiet u f = bind-IsQuiet Any (handle_error-IsQuiet _ f) λ next _.
      bind-IsQuiet (λ x. IsFinishingOrIdle x.0)
        (bind-IsQuiet IsFinishingOrIdle (broken-IsQuiet env u _ (finishing in_report))
          λ s l. pure-IsQuiet _ l)
        λ x l. pure-IsQuiet _ (f, l)

  exceeded_with :
      (u : UpdateInfo) {e : Option Err}
      → OnlyExceeded e
      → StoreResult (elim e [ none ↦ none | some e' ↦ some (u, e') ])
  exceeded_with u stored_well = entered_well
  exceeded_with u exceeded_only = entered_over

  stored_with-IsQuiet :
      (name : MenderState) (u : UpdateInfo) (inc : Bool)
      → IsQuiet StoreResult (
          store_state_of env name u inc >>= λ e.
          pure (elim e [ none ↦ none | some e' ↦ some (u, e') ]))
  stored_with-IsQuiet name u inc =
      bind-IsQuiet OnlyExceeded (store_state_of-IsQuiet name u inc)
        λ e q. pure-IsQuiet _ (exceeded_with u q)

  store_entered-IsQuiet :
      (from : State) {to : State} → IsFinishing to → IsQuiet StoreResult (store_entered env from to)
  unfolding store_entered
  store_entered-IsQuiet from in_first_commit = stored_with-IsQuiet _ _ _
  store_entered-IsQuiet from in_commit = stored_with-IsQuiet _ _ _
  store_entered-IsQuiet from (in_cleanup _) = stored_with-IsQuiet _ _ _
  store_entered-IsQuiet from (in_report {r}) = stored_with-IsQuiet _ r.update _
  store_entered-IsQuiet from in_retry = stored_with-IsQuiet _ _ _

  enter_and_handle-IsQuiet :
      (from : State) {to : State} → IsFinishing to → IsQuiet Leads (enter_and_handle env from to)
  enter_and_handle-IsQuiet from {to} f =
      bind-IsQuiet (λ b. b ≡ false) (enter_scripts-IsQuiet env pass from f)
        λ b e.
          subst
            (λ b.
              IsQuiet Leads
                (if b then handled_error env to to (new_transient_error other) else handle env to))
            (sym e) (handle-keeps_committed env f)

  enter_result-IsQuiet :
      (from : State) {to : State} {r : Option (UpdateInfo × Err)}
      → IsFinishing to
      → StoreResult r
      → IsQuiet Leads (enter_result env from to r)
  enter_result-IsQuiet from f entered_well = enter_and_handle-IsQuiet from f
  enter_result-IsQuiet from f (entered_over {u}) = store_failed-IsQuiet u f

  enter_state-IsQuiet :
      (from : State) {to : State} → IsFinishing to → IsQuiet Leads (enter_state env from to)
  unfolding enter_state
  enter_state-IsQuiet from f =
      bind-IsQuiet StoreResult (store_entered-IsQuiet from f) λ r q. enter_result-IsQuiet from f q

  leave_failed-IsQuiet :
      (u : UpdateInfo) (e : MenderError)
      → IsQuiet
          (λ o. IsFinishingOrIdle o.next)
          (handled_error env (State.update_after_commit u) (State.update_after_commit u) e)
  unfolding handled_error handle_error
  leave_failed-IsQuiet u e =
      bind-IsQuiet IsFinishingOrIdle (broken-IsQuiet env u _ (finishing (in_cleanup after_failure)))
        λ s l. pure-IsQuiet _ l

  after_leave :
      {from to : State} {failed : Bool} (m : Machine)
      → LeaveResult from failed
      → IsFinishing to
      → HasCommitted m.current
      → StaysCommitted m (after_leaving env from to failed m)
  unfolding ◌>>◌ ◌>>=◌ pure modify
  after_leave {from} {to} m left_well f c =
      let ((self, next), e, _) =
        (enter_state-IsQuiet from f).run_quiet (record m { current = to }) in
      (next, e, past_commit self)
  after_leave m (commit_leave_failed {u}) f c =
      let (next, e, same) = (leave_failed-IsQuiet u _).run_quiet m in
      (next, e, subst HasCommitted (sym same) c)

  -- A transition from the commit, or from past it, into a state past the commit rolls nothing back,
  -- and leads to such a state or to the end of the update, if the store works and no script of the
  -- transition "Error" fails.
  pub transition_state-keeps_committed :
      {to : State} (m : Machine)
      → HasCommitted m.current
      → IsFinishing to
      → StaysCommitted m (transition_state env to m)
  unfolding transition_state ◌>>=◌ gets
  transition_state-keeps_committed {to} m c f =
      let (left, e, same) = (leave_scripts-IsQuiet env pass to c).run_quiet m in
      let (next, e', c') =
        after_leave (leave_scripts env m.current to m).1 left f (subst HasCommitted (sym same) c) in
      (next, e' ∙ e, c')
