-- ===== src/Agent/Handle/Rollback.antt =====
-- app/state.go: the states that roll an update back.
use ota_pulse.Prelude.{true, false, if◌then◌else◌}
use ota_pulse.Errors.{other, new_fatal_error, new_transient_error}
use ota_pulse.Datastore.UpdateInfo.{UpdateInfo}
use ota_pulse.Agent.State.{State}
use ota_pulse.Agent.Env.{Env, Op, reboot_host}
use ota_pulse.Agent.Machine.{M, ◌>>=◌, ◌>>◌, go, Outcome, try, enable_log}
use ota_pulse.Agent.HandleError.{broken}
use ota_pulse.Agent.Handle.Payloads.{
  count_installers, run_until_error, requery_reboot_types, Reboots, finished, reboot_payloads,
  Wanted, reboot_wanted, bad_entry, no_reboot_wanted, wants_reboot,
}

module _ (env : Env) where
  abbrev fail_rollback : UpdateInfo → State → M Outcome
  fail_rollback u error_state = do next ← broken env u error_state; go (State.rollback u) next

  abbrev leave_rollback : UpdateInfo → Wanted → M Outcome
  leave_rollback u reboot_wanted = go (State.rollback u) (State.rollback_reboot u)
  leave_rollback u bad_entry = fail_rollback u (State.update_error (new_transient_error other) u)
  leave_rollback u no_reboot_wanted =
      go (State.rollback u) (State.update_error (new_transient_error other) u)

  unfoldable pub handle_rollback : UpdateInfo → M Outcome
  unfolding run_until_error requery_reboot_types wants_reboot broken
  handle_rollback u = do
    enable_log env u.id
    n ← count_installers
    lost ← run_until_error env Op.rollback 0 n
    if lost then fail_rollback u (State.update_error (new_fatal_error other) u) else do
      types ← requery_reboot_types env 0 n u.reboot_requested
      leave_rollback (record u { reboot_requested = types }) (wants_reboot true 0 n types)

  -- Every outcome leads on to the verification.
  abbrev after_reboots : UpdateInfo → Reboots → M Outcome
  after_reboots u (finished true) =
      try env reboot_host >> go (State.rollback_reboot u) (State.verify_rollback_reboot u)
  after_reboots u _ = go (State.rollback_reboot u) (State.verify_rollback_reboot u)

  unfoldable pub handle_rollback_reboot : UpdateInfo → M Outcome
  unfolding reboot_payloads
  handle_rollback_reboot u = do
    enable_log env u.id
    n ← count_installers
    r ← reboot_payloads env Op.rollback_reboot false 0 n u.reboot_requested false
    after_reboots u r

  unfoldable pub handle_verify_rollback_reboot : UpdateInfo → M Outcome
  unfolding run_until_error
  handle_verify_rollback_reboot u = do
    n ← count_installers
    lost ← run_until_error env Op.verify_rollback_reboot 0 n
    go (State.verify_rollback_reboot u)
        (if lost then State.rollback_reboot u else State.after_rollback_reboot u)

  abbrev pub handle_after_rollback_reboot : UpdateInfo → M Outcome
  handle_after_rollback_reboot u = do
    enable_log env u.id
    go (State.after_rollback_reboot u) (State.update_error (new_transient_error other) u)
