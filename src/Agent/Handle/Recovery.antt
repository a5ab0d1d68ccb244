-- ===== src/Agent/Handle/Recovery.antt =====
-- app/state.go, `initState`: where an update goes on after the agent was started anew.
use ota_pulse.Prelude.{false, [], if◌then◌else◌}
use ota_pulse.Errors.{
  other, max_state_data_store_count_exceeded, is_not_exist, MenderError, new_fatal_error,
}
use ota_pulse.Datastore.StateName.{MenderState}
use ota_pulse.Datastore.UpdateInfo.{UpdateInfo, empty_update}
use ota_pulse.Datastore.Db.{StateData}
use ota_pulse.Datastore.StateData.{Loaded, loaded, exceeded, failed}
use ota_pulse.Agent.State.{
  State, new_update_cleanup, new_status_report, new_resumed_status_report, status_failure,
}
use ota_pulse.Agent.Env.{Env, restore_installers}
use ota_pulse.Agent.Machine.{
  M, ◌>>=◌, ◌>>◌, pure, modify, go, Outcome, try, enable_log, load_state_of, remove_state_data,
}
use ota_pulse.Agent.HandleError.{roll_back_or_fail, handle_state_data_error}

module _ (env : Env) where
  -- `getNextState`
  unfoldable pub get_next_state : MenderState → UpdateInfo → MenderError → M State
  unfolding remove_state_data roll_back_or_fail
  get_next_state MenderState.update_fetch u err = do
    lost ← remove_state_data env
    pure (if lost then State.error (new_fatal_error other) else State.idle)
  get_next_state MenderState.update_store u err = pure (new_update_cleanup u status_failure)
  get_next_state MenderState.update_after_store u err = pure (new_update_cleanup u status_failure)
  get_next_state MenderState.reboot u err = pure (State.verify_reboot u)
  get_next_state MenderState.rollback_reboot u err = pure (State.verify_rollback_reboot u)
  get_next_state MenderState.verify_rollback_reboot u err = pure (State.verify_rollback_reboot u)
  get_next_state MenderState.after_rollback_reboot u err = pure (State.verify_rollback_reboot u)
  get_next_state MenderState.update_after_first_commit u err =
      pure (State.update_after_first_commit u)
  get_next_state MenderState.update_after_commit u err = pure (State.update_after_commit u)
  get_next_state MenderState.update_error u err = pure (State.update_error err u)
  get_next_state MenderState.update_cleanup u err = pure (new_update_cleanup u status_failure)
  get_next_state MenderState.update_status_report u err =
      pure (new_resumed_status_report u status_failure)
  get_next_state MenderState.status_report_retry u err =
      pure (new_resumed_status_report u status_failure)
  get_next_state MenderState.report_status_error u err = pure State.idle
  get_next_state _ u err = roll_back_or_fail env u err

  unfoldable pub restore_and_resume : StateData → M State
  unfolding get_next_state
  restore_and_resume sd = do
    let types = sd.update_info.artifact.payload_types
    lost ← try env (restore_installers types)
    modify (λ s. record s { installers = if lost then [] else types })
    if lost
        then pure (new_status_report sd.update_info status_failure)
        else get_next_state sd.name sd.update_info (new_fatal_error other)

  abbrev over_maximum : UpdateInfo → M State
  over_maximum u = do
    (next, cancelled) ←
        handle_state_data_error env State.init false u max_state_data_store_count_exceeded
    pure next

  unfoldable pub resume : Loaded → M State
  unfolding restore_and_resume handle_state_data_error
  resume (failed e) = pure (
      if is_not_exist e
      then State.idle
      else State.update_error (new_fatal_error e) (empty_update "unknown"))
  resume (exceeded sd) = enable_log env sd.update_info.id >> over_maximum sd.update_info
  resume (loaded sd) = enable_log env sd.update_info.id >> restore_and_resume sd

  unfoldable pub handle_init : M Outcome
  unfolding load_state_of resume
  handle_init = do l ← load_state_of env; next ← resume l; go State.init next
