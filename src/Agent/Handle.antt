-- ===== src/Agent/Handle.antt =====
-- app/state.go: the method `Handle` of every state. `Idle` has the states outside an update,
-- `Recovery` the first state after a start, `Download`, `Install`, `Commit`, `Reboot`, `Rollback`,
-- `Finish` the stages of an update, and `Control` the states that hold it up.
pub mod Payloads
mod Idle
mod Recovery
pub mod Download
mod Install
mod Commit
mod Reboot
mod Rollback
mod Finish
mod Control
unfoldable pub use Payloads.*
unfoldable pub use Idle.*
unfoldable pub use Recovery.*
unfoldable pub use Download.*
unfoldable pub use Install.*
unfoldable pub use Commit.*
unfoldable pub use Reboot.*
unfoldable pub use Rollback.*
unfoldable pub use Finish.*
unfoldable pub use Control.*
use ota_pulse.Prelude.{ℕ}
use ota_pulse.Datastore.UpdateInfo.{UpdateInfo}
use ota_pulse.Agent.State.{State, Held, install, reboot_pause_requested, reboot, commit}
use ota_pulse.Agent.Env.{Env}
use ota_pulse.Agent.Machine.{M, Outcome, go}

module _ (env : Env) where
  abbrev pub handle_held : Held → M Outcome
  handle_held (install u) = handle_update_install env u
  handle_held (reboot_pause_requested u) = handle_reboot_pause_requested env u
  handle_held (reboot u) = handle_update_reboot env u
  handle_held (commit tries u) = handle_update_commit env tries u

  -- `Handle`. The final state is never handled.
  abbrev pub handle : State → M Outcome
  handle State.init = handle_init env
  handle State.idle = handle_idle env
  handle State.check_wait = handle_check_wait env
  handle State.update_check = handle_update_check env
  handle State.inventory_update = handle_inventory_update env
  handle State.inventory_update_retry = handle_inventory_update_retry env
  handle State.final = go State.final State.final
  handle (State.error e) = handle_error_state env e
  handle (State.update_fetch u) = handle_update_fetch env u
  handle (State.update_store u) = handle_update_store env u
  handle (State.update_after_store u) = handle_update_after_store env u
  handle (State.fetch_store_retry u) = handle_fetch_store_retry env u
  handle (State.held h) = handle_held h
  handle (State.pre_commit_retry h tries) = handle_pre_commit_retry env h tries
  handle (State.update_after_first_commit u) = handle_update_after_first_commit env u
  handle (State.update_after_commit u) = handle_update_after_commit env u
  handle (State.update_error e u) = handle_update_error env e u
  handle (State.update_cleanup t status u) = handle_update_cleanup env t status u
  handle (State.update_status_report r) = handle_status_report env r
  handle (State.status_report_retry r u tries) = handle_status_report_retry env r u tries
  handle (State.verify_reboot u) = handle_verify_reboot env u
  handle (State.after_reboot u) = handle_after_reboot env u
  handle (State.rollback u) = handle_rollback env u
  handle (State.rollback_reboot u) = handle_rollback_reboot env u
  handle (State.verify_rollback_reboot u) = handle_verify_rollback_reboot env u
  handle (State.after_rollback_reboot u) = handle_after_rollback_reboot env u
  handle (State.control_map h p) = handle_control_map env h p
  handle (State.fetch_control_map h p) = handle_fetch_control_map env h p
  handle (State.fetch_retry_control_map h p) = handle_fetch_retry_control_map env h p
  handle (State.control_map_pause h) = handle_control_map_pause env h
