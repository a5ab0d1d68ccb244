-- ===== src/Agent/Step/PastCommit/Runs.antt =====
-- app/daemon.go, app/mender.go: the transitions of an update past its commit, until it ends, and what
-- happens where the store fails.
use ota_pulse.Prelude.{arith, ℕ, ◌≡◌, refl, ◌∙◌, Bool, true, false, String, List}
use ota_pulse.Datastore.UpdateInfo.{UpdateInfo, rollback_supported}
use ota_pulse.Datastore.StateData.{store_state_data}
use ota_pulse.Agent.Transition.{Transition}
use ota_pulse.Agent.State.{State}
use ota_pulse.Agent.Env.{Env, Call}
use ota_pulse.Agent.Machine.{Machine, ◌>>=◌, pure, store_state_of}
use ota_pulse.Agent.HandleError.{roll_back_or_fail, handle_error, handle_state_data_error}
use ota_pulse.Agent.Step.{store_entered, store_failed, enter_state, transition_state}
use ota_pulse.Agent.Step.PastCommit.{IsFinishingOrIdle, finishing, ended, rollbacks}
use ota_pulse.Agent.Step.PastCommit.Transitions.{StoreWorks, transition_state-keeps_committed}
use ota_pulse.Agent.Step.PastCommit.Scripts.{ErrorScriptsPass, HasCommitted}

abbrev pub is_idle : State → Bool
is_idle State.idle = true
is_idle _ = false

-- Some transitions, each to the state that the one before asks for; none starts from the end of the
-- update.
pub data Run (env : Env) : State → Machine → State → Machine → Type 0 where
  here : {s : State} {m : Machine} → Run env s m s m
  then_round :
      {to end : State} {m m' : Machine}
      → is_idle to ≡ false
      → Run env (transition_state env to m).0.0 (transition_state env to m).1 end m'
      → Run env to m end m'

-- However long an update goes on past its commit, nothing is rolled back until it ends, if the store
-- works and no script of the transition "Error" fails.
pub Run-keeps_committed :
    (env : Env)
    → ErrorScriptsPass env
    → StoreWorks env
    → {to end : State} {m m' : Machine} → HasCommitted m.current
    → IsFinishingOrIdle to
    → Run env to m end m'
    → IsFinishingOrIdle end × (rollbacks m'.trace ≡ rollbacks m.trace)
Run-keeps_committed env pass works c f here = (f, refl)
Run-keeps_committed env pass works {m = m} c (finishing f) (then_round e r) =
    let (f', same, c') = transition_state-keeps_committed env pass works m c f in
    let (f'', same') = Run-keeps_committed env pass works c' f' r in (f'', same' ∙ same)
Run-keeps_committed env pass works c ended (then_round e r) = ground arith

-- If the store cannot be opened when the clean-up or the status report of an update that supports
-- rollback is entered, the next state is the rollback, although the update may be committed.
pub enter_state-rolls_back :
    (env : Env) (from : State) (m : Machine) (u : UpdateInfo)
    → u.supports_rollback ≡ rollback_supported
    → ((calls : List Call) → (env.txn_faults calls).open_fails ≡ true)
    → ((t : Transition) (status : String)
        → (enter_state env from (State.update_cleanup t status u) m).0.next ≡ State.rollback u)
      × ((status : String) (n : ℕ)
          → (enter_state env from
              (State.update_status_report (record {
                update = u;
                status = status;
                tries_sending_report = n;
                tries_sending_logs = 0;
              }))
              m).0.next
            ≡ State.rollback u)
unfolding enter_state store_entered store_state_of store_state_data store_failed roll_back_or_fail
    handle_error handle_state_data_error ◌>>=◌ pure
enter_state-rolls_back env from m u supported broken =
    ((λ t status. rw (broken _, supported)), (λ status n. rw (broken _, supported)))
