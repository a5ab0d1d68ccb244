-- ===== src/Agent/Handle/Install.antt =====
-- app/state.go, `updateInstallState`: the payloads are installed, and asked for a reboot.
use ota_pulse.Prelude.{true, false, not, Option, none, some, if◌then◌else◌}
use ota_pulse.Errors.{Err, other, MenderError, new_transient_error}
use ota_pulse.Datastore.StateName.{MenderState}
use ota_pulse.Datastore.UpdateInfo.{UpdateInfo}
use ota_pulse.Agent.State.{State, Held, install, reboot_pause_requested, commit, status_installing}
use ota_pulse.Agent.Env.{Env, Op}
use ota_pulse.Agent.Machine.{M, ◌>>=◌, pure, go, Outcome, enable_log, store_state_of}
use ota_pulse.Agent.Report.{report_update_status}
use ota_pulse.Agent.HandleError.{roll_back_or_fail, handle_state_data_error}
use ota_pulse.Agent.Handle.Payloads.{
  count_installers, run_until_error, query_reboot_types, Wanted, reboot_wanted, bad_entry,
  no_reboot_wanted, wants_reboot,
}

module _ (env : Env) where
  abbrev self_of : UpdateInfo → State
  self_of u = State.held (install u)

  abbrev fail_install : UpdateInfo → MenderError → M Outcome
  fail_install u err = do next ← roll_back_or_fail env u err; go (self_of u) next

  abbrev leave_install : UpdateInfo → Wanted → M Outcome
  leave_install u reboot_wanted =
      go (self_of u) (State.fetch_control_map (Held.reboot u) (some (reboot_pause_requested u)))
  leave_install u bad_entry = fail_install u (new_transient_error other)
  leave_install u no_reboot_wanted = go (self_of u) (State.fetch_control_map (commit 0 u) none)

  -- The state for the error is found first, and then replaced if the stores were exceeded.
  abbrev fail_reboot_store : UpdateInfo → Err → M Outcome
  fail_reboot_store u e = do
    next ← roll_back_or_fail env u (new_transient_error e)
    (next', cancelled) ← handle_state_data_error env next false u e
    pure (record { self = self_of u; next = next'; cancelled = cancelled })

  -- `handleRebootType`, and what follows on it.
  abbrev ask_for_reboot : UpdateInfo → M Outcome
  ask_for_reboot u = do
    n ← count_installers
    (types, known) ← query_reboot_types env 0 n u.reboot_requested
    let u' = record u { reboot_requested = types }
    if not known then fail_install u' (new_transient_error other) else do
      e ← store_state_of env MenderState.update_install u' true
      elim e [
        | none ↦ leave_install u' (wants_reboot false 0 n types)
        | some e' ↦ fail_reboot_store u' e'
      ]

  abbrev install_payloads : UpdateInfo → M Outcome
  install_payloads u = do
    n ← count_installers
    lost ← run_until_error env Op.install_update 0 n
    if lost then fail_install u (new_transient_error other) else ask_for_reboot u

  abbrev unless_fatal : UpdateInfo → Option MenderError → M Outcome
  unless_fatal u none = install_payloads u
  unless_fatal u (some e) = if e.fatal then fail_install u e else install_payloads u

  unfoldable pub handle_update_install : UpdateInfo → M Outcome
  unfolding report_update_status run_until_error query_reboot_types store_state_of wants_reboot
      roll_back_or_fail handle_state_data_error
  handle_update_install u = do
    unlogged ← enable_log env u.id
    if unlogged
        then go (self_of u) (State.update_error (new_transient_error other) u)
        else do e ← report_update_status env u status_installing; unless_fatal u e
