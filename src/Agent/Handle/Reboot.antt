-- ===== src/Agent/Handle/Reboot.antt =====
-- app/state.go: the states that reboot into an update.
use ota_pulse.Prelude.{true, false, none, if◌then◌else◌}
use ota_pulse.Errors.{other, new_transient_error}
use ota_pulse.Datastore.UpdateInfo.{UpdateInfo}
use ota_pulse.Agent.State.{State, reboot_pause_requested, reboot, commit, status_rebooting}
use ota_pulse.Agent.Env.{Env, Op, reboot_host}
use ota_pulse.Agent.Machine.{M, ◌>>=◌, ◌>>◌, go, Outcome, try, enable_log}
use ota_pulse.Agent.Report.{report_update_status, is_fatal}
use ota_pulse.Agent.HandleError.{roll_back_or_fail}
use ota_pulse.Agent.Handle.Payloads.{
  count_installers, run_until_error, Reboots, unreadable, reboot_failed, finished, reboot_payloads,
}

module _ (env : Env) where
  abbrev pub handle_reboot_pause_requested : UpdateInfo → M Outcome
  handle_reboot_pause_requested u =
      go (State.held (reboot_pause_requested u)) (State.control_map (reboot u) none)

  abbrev fail_in : State → UpdateInfo → M Outcome
  fail_in self u = do next ← roll_back_or_fail env u (new_transient_error other); go self next

  -- The call that reboots the host never returns if it succeeds.
  abbrev after_reboots : UpdateInfo → Reboots → M Outcome
  after_reboots u unreadable = fail_in (State.held (reboot u)) u
  after_reboots u reboot_failed = go (State.held (reboot u)) (State.rollback u)
  after_reboots u (finished true) = try env reboot_host >> fail_in (State.held (reboot u)) u
  after_reboots u (finished false) = go (State.held (reboot u)) (State.verify_reboot u)

  unfoldable pub handle_update_reboot : UpdateInfo → M Outcome
  unfolding report_update_status reboot_payloads roll_back_or_fail
  handle_update_reboot u = do
    enable_log env u.id
    e ← report_update_status env u status_rebooting
    if is_fatal e then go (State.held (reboot u)) (State.rollback u) else do
      n ← count_installers
      r ← reboot_payloads env Op.reboot true 0 n u.reboot_requested false
      after_reboots u r

  unfoldable pub handle_verify_reboot : UpdateInfo → M Outcome
  unfolding run_until_error roll_back_or_fail
  handle_verify_reboot u = do
    n ← count_installers
    lost ← run_until_error env Op.verify_reboot 0 n
    if lost
        then fail_in (State.verify_reboot u) u
        else go (State.verify_reboot u) (State.after_reboot u)

  abbrev pub handle_after_reboot : UpdateInfo → M Outcome
  handle_after_reboot u = do
    enable_log env u.id
    go (State.after_reboot u) (State.fetch_control_map (commit 0 u) none)
