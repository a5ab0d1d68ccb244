-- ===== src/Agent/State.antt =====
-- app/state.go: the states of the agent, with the data that each carries. A state object that is
-- changed in place is returned anew by its handler.
use ota_pulse.Prelude.{ℕ, String, Bool, true, false, ◌=ₛ◌, Option, none, some, if◌then◌else◌}
use ota_pulse.Errors.{MenderError}
use ota_pulse.Datastore.StateName.{MenderState}
use ota_pulse.Datastore.UpdateInfo.{UpdateInfo}
use ota_pulse.Agent.Transition.{
  Transition, to_none, to_idle, to_sync, to_error, to_download_enter, to_download_leave,
  to_artifact_install, to_artifact_reboot_enter, to_artifact_reboot_leave, to_artifact_commit_enter,
  to_artifact_commit_leave, to_artifact_rollback, to_artifact_rollback_reboot_enter,
  to_artifact_rollback_reboot_leave, to_artifact_failure,
}

-- client/client_status.go
abbrev pub status_installing : String
status_installing = "installing"

abbrev pub status_downloading : String
status_downloading = "downloading"

abbrev pub status_rebooting : String
status_rebooting = "rebooting"

abbrev pub status_success : String
status_success = "success"

abbrev pub status_failure : String
status_failure = "failure"

-- The states that a control map can hold up: the results of the four constructors that return an
-- `UpdateState`. A commit counts its tries to report.
pub data Held : Type 0 where
  install : UpdateInfo → Held
  reboot_pause_requested : UpdateInfo → Held
  reboot : UpdateInfo → Held
  commit : ℕ → UpdateInfo → Held

-- `updateStatusReportState`; its field `logs` is always nil.
pub record StatusReport : Type 0 where
  pub update : UpdateInfo
  pub status : String
  pub tries_sending_report : ℕ
  pub tries_sending_logs : ℕ

-- The Go type of a state is its constructor here. `update_cleanup` keeps the transition that
-- `NewUpdateCleanupState` gave it. `fetch_store_retry` keeps no origin, which no code reads.
pub data State : Type 0 where
  init idle check_wait update_check inventory_update inventory_update_retry final : State
  error : MenderError → State
  update_fetch update_store update_after_store fetch_store_retry : UpdateInfo → State
  held : Held → State
  pre_commit_retry : Held → ℕ → State
  update_after_first_commit update_after_commit : UpdateInfo → State
  update_error : MenderError → UpdateInfo → State
  update_cleanup : Transition → String → UpdateInfo → State
  update_status_report : StatusReport → State
  status_report_retry : StatusReport → UpdateInfo → ℕ → State
  verify_reboot after_reboot : UpdateInfo → State
  rollback rollback_reboot verify_rollback_reboot after_rollback_reboot : UpdateInfo → State
  control_map fetch_control_map fetch_retry_control_map : Held → Option Held → State
  control_map_pause : Held → State

-- `NewUpdateCleanupState`
abbrev pub new_update_cleanup : UpdateInfo → String → State
new_update_cleanup u status =
    State.update_cleanup (if status =ₛ status_success then to_none else to_error) status u

-- `NewUpdateStatusReportState`
abbrev pub new_status_report : UpdateInfo → String → State
new_status_report u status =
    State.update_status_report
      (record { update = u; status = status; tries_sending_report = 0; tries_sending_logs = 0 })

-- `newResumedUpdateStatusReportState`
abbrev pub new_resumed_status_report : UpdateInfo → String → State
new_resumed_status_report u status = State.update_status_report (record {
  update = u;
  status = status;
  tries_sending_report = u.status_report_retry_attempts;
  tries_sending_logs = 0;
})

abbrev pub held_id : Held → MenderState
held_id (install u) = MenderState.update_install
held_id (reboot_pause_requested u) = MenderState.reboot
held_id (reboot u) = MenderState.reboot
held_id (commit n u) = MenderState.update_commit

abbrev pub held_update : Held → UpdateInfo
held_update (install u) = u
held_update (reboot_pause_requested u) = u
held_update (reboot u) = u
held_update (commit n u) = u

abbrev pub held_transition : Held → Transition
held_transition (install u) = to_artifact_install
held_transition (reboot_pause_requested u) = to_artifact_reboot_enter
held_transition (reboot u) = to_artifact_reboot_enter
held_transition (commit n u) = to_artifact_commit_enter

-- `Id`
abbrev pub state_id : State → MenderState
state_id State.init = MenderState.init
state_id State.idle = MenderState.idle
state_id State.check_wait = MenderState.check_wait
state_id State.update_check = MenderState.update_check
state_id State.inventory_update = MenderState.inventory_update
state_id State.inventory_update_retry = MenderState.inventory_update_retry_wait
state_id State.final = MenderState.done
state_id (State.error e) = MenderState.error
state_id (State.update_fetch u) = MenderState.update_fetch
state_id (State.update_store u) = MenderState.update_store
state_id (State.update_after_store u) = MenderState.update_after_store
state_id (State.fetch_store_retry u) = MenderState.fetch_store_retry_wait
state_id (State.held h) = held_id h
state_id (State.pre_commit_retry h n) = MenderState.update_pre_commit_status_report_retry
state_id (State.update_after_first_commit u) = MenderState.update_after_first_commit
state_id (State.update_after_commit u) = MenderState.update_after_commit
state_id (State.update_error e u) = MenderState.update_error
state_id (State.update_cleanup t s u) = MenderState.update_cleanup
state_id (State.update_status_report r) = MenderState.update_status_report
state_id (State.status_report_retry r u n) = MenderState.status_report_retry
state_id (State.verify_reboot u) = MenderState.after_reboot
state_id (State.after_reboot u) = MenderState.after_reboot
state_id (State.rollback u) = MenderState.rollback
state_id (State.rollback_reboot u) = MenderState.rollback_reboot
state_id (State.verify_rollback_reboot u) = MenderState.verify_rollback_reboot
state_id (State.after_rollback_reboot u) = MenderState.after_rollback_reboot
state_id (State.control_map h p) = MenderState.update_control
state_id (State.fetch_control_map h p) = MenderState.fetch_update_control
state_id (State.fetch_retry_control_map h p) = MenderState.fetch_retry_update_control
state_id (State.control_map_pause h) = MenderState.update_control_pause

-- `Transition`
abbrev pub state_transition : State → Transition
state_transition State.idle = to_idle
state_transition State.check_wait = to_idle
state_transition State.update_check = to_sync
state_transition State.inventory_update = to_sync
state_transition State.inventory_update_retry = to_sync
state_transition (State.error e) = to_error
state_transition (State.update_fetch u) = to_download_enter
state_transition (State.update_store u) = to_download_enter
state_transition (State.fetch_store_retry u) = to_download_enter
state_transition (State.update_after_store u) = to_download_leave
state_transition (State.held h) = held_transition h
state_transition (State.pre_commit_retry h n) = to_artifact_commit_enter
state_transition (State.update_after_commit u) = to_artifact_commit_leave
state_transition (State.update_error e u) = to_artifact_failure
state_transition (State.update_cleanup t s u) = t
state_transition (State.verify_reboot u) = to_artifact_reboot_leave
state_transition (State.after_reboot u) = to_artifact_reboot_leave
state_transition (State.rollback u) = to_artifact_rollback
state_transition (State.rollback_reboot u) = to_artifact_rollback_reboot_enter
state_transition (State.verify_rollback_reboot u) = to_artifact_rollback_reboot_leave
state_transition (State.after_rollback_reboot u) = to_artifact_rollback_reboot_leave
state_transition _ = to_none

-- `Update`, which the states have that are an `UpdateState`.
abbrev pub state_update : State → Option UpdateInfo
state_update (State.update_fetch u) = some u
state_update (State.update_store u) = some u
state_update (State.update_after_store u) = some u
state_update (State.held h) = some (held_update h)
state_update (State.update_after_first_commit u) = some u
state_update (State.update_after_commit u) = some u
state_update (State.update_error e u) = some u
state_update (State.update_cleanup t s u) = some u
state_update (State.update_status_report r) = some r.update
state_update (State.status_report_retry r u n) = some u
state_update (State.verify_reboot u) = some u
state_update (State.after_reboot u) = some u
state_update (State.rollback u) = some u
state_update (State.rollback_reboot u) = some u
state_update (State.verify_rollback_reboot u) = some u
state_update (State.after_rollback_reboot u) = some u
state_update _ = none

-- Whether a state counts as one that may loop: those that say so in `PermitLooping`, and all that
-- are no `UpdateState`.
abbrev pub permits_looping : State → Bool
permits_looping (State.status_report_retry r u n) = true
permits_looping s = elim (state_update s) [ none ↦ true | some _ ↦ false ]
