-- ===== src/Tests/Past.antt =====
-- Runs of the agent's states, from the commit to the report.
use mathlib.Core.List.{Memᴰ}
use ota_pulse.Prelude.Int.{pos}
use ota_pulse.ControlMap.Map.{UpdateControlMap, action}
use ota_pulse.Prelude.{
  contains, ℕ, ◌≡◌, refl, String, Bool, true, some, [], arith, lookup, insert, delete,
}
use ota_pulse.Errors.{other, new_fatal_error}
use ota_pulse.Datastore.StateName.{MenderState}
use ota_pulse.Datastore.UpdateInfo.{UpdateInfo}
use ota_pulse.Datastore.Db.{Db, no_faults, text_entry, artifact_name_key}
use ota_pulse.Datastore.StateData.{store_state_data, store_state_data_and_transaction}
use ota_pulse.Datastore.Artifact.{commit_artifact_data}
use ota_pulse.Agent.Transition.{Transition}
use ota_pulse.Agent.State.{status_failure, StatusReport, State, state_id}
use ota_pulse.Agent.Env.{Env}
use ota_pulse.Agent.Machine.{Machine, ◌>>=◌, ◌>>◌, pure, ask, gets}
use ota_pulse.Agent.Report.{send_deployment_status, report_update_status}
use ota_pulse.Agent.Step.Bounds.{
  counted, handle_status_report_retry-ends, handle_status_report-counts,
}
use ota_pulse.Agent.Step.Commit.{handle_update_commit-stores_name}
use ota_pulse.Agent.Step.Interrupted.{is_rollback_state, interrupted_commit-rolls_back}
use ota_pulse.Agent.Handle.{
  handle, handle_init, handle_status_report, handle_status_report_retry, get_next_state,
  handle_update_commit, store_commit,
}
use ota_pulse.Agent.Step.{enter_state, transition_state}
use ota_pulse.Agent.Step.PastCommit.{
  IsFinishing, in_first_commit, IsFinishingOrIdle, finishing, rollbacks, IsQuiet, Leads,
}
use ota_pulse.Agent.Step.PastCommit.Handlers.{handle-keeps_committed}
use ota_pulse.Agent.Step.PastCommit.Transitions.{StaysCommitted, transition_state-keeps_committed}
use ota_pulse.Agent.Step.PastCommit.Scripts.{at_commit}
use ota_pulse.Agent.Step.PastCommit.Runs.{
  here, then_round, Run-keeps_committed, enter_state-rolls_back,
}
use ota_pulse.Agent.Step.PastCommit.Restart.{restart-keeps_committed}
use ota_pulse.Prelude.{false, ◌∷◌, [], some, none}
use ota_pulse.Agent.Machine.{modify}
use ota_pulse.Datastore.UpdateInfo.{set_supports_rollback}
use ota_pulse.Agent.Env.{ArtifactHeaders}
use ota_pulse.Agent.Handle.{handle_update_store}
use ota_pulse.Agent.Step.Storing.{header_calls, handle_update_store-verifies}
use ota_pulse.Tests.Setup.{calm, storeless, release, device_in, committing, first_commit}

abbrev entered : (State × Bool) × Machine
entered = transition_state calm first_commit committing

Run-keeps_committed_example :
    IsFinishingOrIdle entered.0.0 × (rollbacks entered.1.trace ≡ rollbacks [])
Run-keeps_committed_example =
    Run-keeps_committed calm (λ _ _ _. refl) (λ _. refl) {m = committing} at_commit
      (finishing in_first_commit) (then_round refl here)

abbrev stored_db : Db
stored_db =
    (store_state_data no_faults []
      (record { version = 0; name = state_id first_commit; update_info = release }) true).0

abbrev restarted : Machine
restarted = device_in State.init stored_db

restart-keeps_committed_example :
    IsFinishing (handle_init calm restarted).0.next
    × (rollbacks (handle_init calm restarted).1.trace ≡ rollbacks [])
unfolding lookup
restart-keeps_committed_example =
    restart-keeps_committed calm restarted [] release true (λ _. refl)
      (in_first_commit {u = release}) refl (grind arith) refl

transition_state-keeps_committed_example :
    StaysCommitted committing (transition_state calm first_commit committing)
transition_state-keeps_committed_example =
    transition_state-keeps_committed calm (λ _ _ _. refl) (λ _. refl) committing at_commit
      in_first_commit

handle-keeps_committed_example : IsQuiet Leads (handle storeless first_commit)
handle-keeps_committed_example = handle-keeps_committed storeless in_first_commit

abbrev reporting : String → ℕ → State
reporting status n =
    State.update_status_report (record {
      update = release;
      status = status;
      tries_sending_report = n;
      tries_sending_logs = 0;
    })

abbrev committed : State
committed = State.update_after_commit release

enter_state-rolls_back_example :
    ((t : Transition) (status : String)
      → (enter_state storeless committed (State.update_cleanup t status release) committing).0.next
        ≡ State.rollback release)
    × ((status : String) (n : ℕ)
        → (enter_state storeless committed (reporting status n) committing).0.next
          ≡ State.rollback release)
enter_state-rolls_back_example =
    enter_state-rolls_back storeless committed committing release refl (λ _. refl)

abbrev failure_report : StatusReport
failure_report = record {
  update = release;
  status = status_failure;
  tries_sending_report = 2;
  tries_sending_logs = 0;
}

handle_status_report_retry-ends_example :
    (handle_status_report_retry calm failure_report release 11 committing).0.next ≡ State.idle
handle_status_report_retry-ends_example =
    handle_status_report_retry-ends calm committing failure_report release 11 (omega arith)

abbrev unreachable_server : Env
unreachable_server = record calm { api_error = λ _. some other }

handle_status_report-counts_example :
    ((handle_status_report unreachable_server failure_report committing).0.next
      ≡ State.status_report_retry
          (record failure_report { update = counted failure_report; tries_sending_report = 3 })
          (counted failure_report)
          3)
    × ((get_next_state unreachable_server MenderState.status_report_retry
          (counted failure_report)
          (new_fatal_error other)
          committing).0
        ≡ State.update_status_report (record {
          update = counted failure_report;
          status = status_failure;
          tries_sending_report = 3;
          tries_sending_logs = 0;
        }))
handle_status_report-counts_example =
    handle_status_report-counts unreachable_server committing committing failure_report
      (new_fatal_error other) refl refl

handle_update_commit-stores_name_example :
    lookup artifact_name_key (handle_update_commit calm 0 release committing).1.db
    ≡ some (text_entry "release-2")
unfolding handle_update_commit send_deployment_status report_update_status store_commit
    store_state_data_and_transaction commit_artifact_data ◌>>=◌ ◌>>◌ pure ask lookup insert gets
    delete
handle_update_commit-stores_name_example =
    handle_update_commit-stores_name calm 0 release committing refl

interrupted_commit-rolls_back_example :
    (lookup artifact_name_key (store_commit calm release committing).1.db
      ≡ some (text_entry "release-2"))
    × (is_rollback_state
          (handle_init calm
            (device_in State.init (store_commit calm release committing).1.db)).0.next
        ≡ true)
unfolding commit_artifact_data lookup delete insert
interrupted_commit-rolls_back_example =
    interrupted_commit-rolls_back calm committing
      (device_in State.init (store_commit calm release committing).1.db) release (λ _. refl)
      (λ _. refl) refl refl refl (omega arith) refl

-- Two maps of one priority: one lets the commit go on, and one asks for a pause.
abbrev map_asking : String → UpdateControlMap
map_asking answer = record {
  id = "deployment-1";
  priority = pos 5;
  states =
      (
        "ArtifactCommit_Enter",
        record { action = answer; on_map_expire = "fail"; on_action_executed = "continue" },
      )
      ∷ [];
  stamped = 0;
  half_way_time = 0;
  expiry_time = 0;
  expired = false;
}

abbrev doubtful : Machine
doubtful = record committing {
  pool = record {
    maps = map_asking "continue" ∷ map_asking "pause" ∷ [];
    saved = none;
    announced = false;
  };
}

abbrev release_headers : ArtifactHeaders
release_headers = record {
  artifact_name = "release-2";
  compatible_devices = "board" ∷ [];
  payload_types = "rootfs-image" ∷ [];
  depends = none;
  provides_error = false;
  provides = none;
  clears_provides = none;
}

abbrev downloading : Env
downloading = record calm { headers = λ _. some release_headers }

abbrev for_boards : UpdateInfo
for_boards = record release {
  artifact = record release.artifact { compatible_devices = "board" ∷ [] };
}

handle_update_store-verifies_example :
    (h : ArtifactHeaders) × (downloading.headers (header_calls for_boards committing) ≡ some h)
    × (h.artifact_name ≡ "release-2")
    × ((d : String) → Memᴰ d ("board" ∷ []) → Memᴰ d h.compatible_devices)
    × (h.provides_error ≡ false)
unfolding handle_update_store ◌>>=◌ ask pure ◌>>◌ lookup modify gets set_supports_rollback insert
    delete contains
handle_update_store-verifies_example =
    handle_update_store-verifies downloading for_boards committing refl
