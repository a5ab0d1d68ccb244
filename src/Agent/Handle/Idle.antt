-- ===== src/Agent/Handle/Idle.antt =====
-- app/state.go: the states outside an update.
use ota_pulse.Prelude.{ℕ, suc, ◌+◌, ◌-◌, Bool, not, Option, none, some, ltb, ◌==◌, if◌then◌else◌}
use ota_pulse.Errors.{Err, is_no_deployment, is_no_artifact_name, MenderError, new_transient_error}
use ota_pulse.Datastore.UpdateInfo.{UpdateInfo}
use ota_pulse.ControlMap.Pool.{Pool, clear_expired}
use ota_pulse.Agent.Backoff.{get_exponential_backoff_time}
use ota_pulse.Agent.State.{State, new_status_report, status_failure}
use ota_pulse.Agent.Env.{
  Env, disable_logger, save_maps, inventory_refresh, get_scheduled_update, now,
}
use ota_pulse.Agent.Machine.{
  M, ◌>>=◌, ◌>>◌, gets, modify, ask, go, Outcome, try, enable_log, remove_state_data, sync_pool,
  wait_for,
}

module _ (env : Env) where
  -- An operation on the pool, which is then saved.
  abbrev pub pool_op : (Bool → Pool → Pool) → M (Unit {0})
  pool_op f = do
    c ← sync_pool env
    failed ← try env save_maps
    modify (λ s. record s { pool = f (not failed) c })

  unfoldable pub handle_idle : M Outcome
  unfolding remove_state_data
  handle_idle = do
    try env disable_logger
    remove_state_data env
    pool_op clear_expired
    go State.idle State.check_wait

  unfoldable pub handle_check_wait : M Outcome
  unfolding wait_for
  handle_check_wait = do
    last_update ← gets (λ s. s.last_update_check_attempt)
    last_inventory ← gets (λ s. s.last_inventory_update_attempt)
    if last_inventory == 0 then go State.check_wait State.inventory_update else do
      let next_update = last_update + env.update_poll_interval
      let next_inventory = last_inventory + env.inventory_poll_interval
      t ← ask now env.time
      if ltb next_update next_inventory
          then wait_for env State.check_wait State.update_check State.check_wait (next_update - t)
          else wait_for env State.check_wait State.inventory_update State.check_wait
              (next_inventory - t)

  abbrev inventory_result : Option Err → M Outcome
  inventory_result none = do
    modify (λ s. record s { inventory_update_attempts = 0 })
    go State.inventory_update State.check_wait
  inventory_result (some e) =
      if is_no_artifact_name e
      then go State.inventory_update (State.error (new_transient_error e))
      else go State.inventory_update State.inventory_update_retry

  unfoldable pub handle_inventory_update : M Outcome
  handle_inventory_update = do e ← ask inventory_refresh env.api_error; inventory_result e

  abbrev shorter : ℕ → ℕ → ℕ
  shorter configured t = if ltb configured t then configured else t

  abbrev wait_for_inventory : ℕ → M Outcome
  wait_for_inventory t =
      wait_for env State.inventory_update_retry State.inventory_update State.inventory_update_retry
        (shorter env.retry_poll_interval t)

  -- The next attempt is put off even if there is to be none.
  abbrev retry_inventory : Option ℕ → M Outcome
  retry_inventory none = do
    t ← ask now env.time
    modify (λ s. record s { next_attempt_at = t })
    go State.inventory_update_retry State.check_wait
  retry_inventory (some interval) = do
    t ← ask now env.time
    modify (λ s. record s {
      next_attempt_at = t + interval;
      inventory_update_attempts = suc s.inventory_update_attempts;
    })
    wait_for_inventory interval

  abbrev retried_inventory : Option Err → M Outcome
  retried_inventory none = go State.inventory_update_retry State.check_wait
  retried_inventory (some e) =
      if is_no_artifact_name e
      then go State.inventory_update_retry (State.error (new_transient_error e))
      else (gets (λ s. s.inventory_update_attempts) >>= λ tried.
          retry_inventory
            (get_exponential_backoff_time tried env.retry_poll_interval env.retry_poll_count))

  unfoldable pub handle_inventory_update_retry : M Outcome
  unfolding wait_for
  handle_inventory_update_retry = do
    next ← gets (λ s. s.next_attempt_at)
    t ← ask now env.time
    if ltb t next
        then wait_for_inventory (next - t)
        else do e ← ask inventory_refresh env.api_error; retried_inventory e

  -- A failed check with an update is a fault of the update itself, and fails it.
  abbrev checked : Option UpdateInfo → Option Err → M Outcome
  checked none none = go State.update_check State.check_wait
  checked (some u) none = go State.update_check (State.update_fetch u)
  checked none (some e) =
      if is_no_deployment e
      then go State.update_check State.check_wait
      else go State.update_check (State.error (new_transient_error e))
  checked (some u) (some e) =
      if is_no_deployment e
      then go State.update_check State.check_wait
      else (enable_log env u.id >> go State.update_check (new_status_report u status_failure))

  unfoldable pub handle_update_check : M Outcome
  handle_update_check = do
    r ← ask get_scheduled_update env.check_update
    checked r.update r.check_error

  unfoldable pub handle_error_state : MenderError → M Outcome
  handle_error_state cause = do
    try env disable_logger
    go (State.error cause) (if cause.fatal then State.final else State.idle)
