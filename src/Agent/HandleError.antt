-- ===== src/Agent/HandleError.antt =====
-- app/state.go: the method `HandleError` of every state, and `handleStateDataError`.
use ota_pulse.Prelude.{Bool, false, ◌=ₛ◌, if◌then◌else◌}
use ota_pulse.Errors.{Err, is_max_store_count, MenderError}
use ota_pulse.Datastore.UpdateInfo.{UpdateInfo, rollback_supported}
use ota_pulse.Agent.State.{
  State, new_update_cleanup, new_status_report, held_update, status_failure,
}
use ota_pulse.Agent.Env.{Env}
use ota_pulse.Agent.Machine.{M, ◌>>=◌, ◌>>◌, pure, set_broken_artifact_flag}

module _ (env : Env) where
  -- The artifact is marked as inconsistent.
  unfoldable pub broken : UpdateInfo → State → M State
  broken u next = do set_broken_artifact_flag env u.artifact.artifact_name; pure next

  -- `updateState.HandleError`, the default of the update states.
  unfoldable pub roll_back_or_fail : UpdateInfo → MenderError → M State
  unfolding broken
  roll_back_or_fail u err =
      if u.supports_rollback =ₛ rollback_supported
      then pure (State.rollback u)
      else broken u (State.update_error err u)

  -- The clauses are the types that override it; then come those that inherit it from
  -- `updateState`, and the last is the method of `baseState`.
  unfoldable pub handle_error : State → MenderError → M State
  unfolding broken
  handle_error (State.update_fetch u) err = pure (State.update_error err u)
  handle_error (State.update_store u) err = pure (new_update_cleanup u status_failure)
  handle_error (State.update_after_store u) err = pure (new_update_cleanup u status_failure)
  handle_error (State.update_after_first_commit u) err =
      broken u (new_update_cleanup u status_failure)
  handle_error (State.update_after_commit u) err = broken u (new_update_cleanup u status_failure)
  handle_error (State.rollback u) err = broken u (State.update_error err u)
  handle_error (State.rollback_reboot u) err = pure (State.verify_rollback_reboot u)
  handle_error (State.verify_rollback_reboot u) err = pure (State.rollback_reboot u)
  handle_error (State.held h) err = roll_back_or_fail (held_update h) err
  handle_error (State.update_cleanup t s u) err = roll_back_or_fail u err
  handle_error (State.update_status_report r) err = roll_back_or_fail r.update err
  handle_error (State.verify_reboot u) err = roll_back_or_fail u err
  handle_error (State.after_reboot u) err = roll_back_or_fail u err
  handle_error (State.after_rollback_reboot u) err = roll_back_or_fail u err
  handle_error s err = pure (State.error err)

  -- `handleStateDataError`: once the maximum of stores is reached, the update is over.
  unfoldable pub handle_state_data_error : State → Bool → UpdateInfo → Err → M (State × Bool)
  unfolding broken
  handle_state_data_error new_state cancelled u e =
      if is_max_store_count e
      then (broken u (new_status_report u status_failure) >>= λ next. pure (next, false))
      else pure (new_state, cancelled)
