-- ===== src/Agent/Handle/Control.antt =====
-- app/state.go: the states that hold an update up, as its control maps ask. `Held` has the state that
-- is held up; a `none` beside it is the nil `pauseState`.
use ota_pulse.Prelude.{
  ℕ, suc, ◌-◌, String, Bool, true, false, not, ◌&&◌, Option, none, some, ◌∷◌, ltb, ◌==◌, ◌=ₛ◌,
  if◌then◌else◌, contains,
}
use ota_pulse.Errors.{Err, other, is_no_deployment, new_transient_error}
use ota_pulse.Datastore.StateName.{state_name}
use ota_pulse.ControlMap.Map.{UpdateControlMap, stamp}
use ota_pulse.ControlMap.Pool.{
  insert_replace_all_priorities, delete_all_priorities, has_control_map,
  next_id_control_map_half_time, next_any_control_map_half_time,
}
use ota_pulse.ControlMap.Query.{query_and_update}
use ota_pulse.Agent.Backoff.{get_exponential_backoff_time}
use ota_pulse.Agent.State.{
  State, Held, install, reboot_pause_requested, reboot, commit, held_id, held_update,
}
use ota_pulse.Agent.Env.{Env, WaitResult, get_control_map, save_maps, wait, now}
use ota_pulse.Agent.Machine.{
  M, ◌>>=◌, ◌>>◌, pure, gets, modify, ask, go, Outcome, try, sync_pool, wait_for,
}
use ota_pulse.Agent.Report.{report_update_status}
use ota_pulse.Agent.HandleError.{roll_back_or_fail}
use ota_pulse.Agent.Handle.Idle.{pool_op}

-- `pauseName` and `mapStateToName`, by the state that is held up, which has one of their transitions.
abbrev pub pause_name : Held → String
pause_name (install u) = "pause_before_installing"
pause_name (reboot_pause_requested u) = "pause_before_rebooting"
pause_name (reboot u) = "pause_before_rebooting"
pause_name (commit n u) = "pause_before_committing"

abbrev pub map_state_name : Held → String
map_state_name (install u) = "ArtifactInstall_Enter"
map_state_name (reboot_pause_requested u) = "ArtifactReboot_Enter"
map_state_name (reboot u) = "ArtifactReboot_Enter"
map_state_name (commit n u) = "ArtifactCommit_Enter"

module _ (env : Env) where
  unfoldable pub query : String → M String
  unfolding query_and_update
  query name = do
    c ← sync_pool env
    failed ← try env save_maps
    let (v, c') = query_and_update env.sort_maps (not failed) name c
    modify (λ s. record s { pool = c' })
    pure v

  abbrev fail_held : State → Held → M Outcome
  fail_held self h = do
    next ← roll_back_or_fail env (held_update h) (new_transient_error other)
    go self next

  abbrev report_pause : State → Held → M Outcome
  report_pause self h = do
    modify (λ s. record s { pause_reported = state_name (held_id h) ∷ s.pause_reported })
    e ← report_update_status env (held_update h) (pause_name h)
    elim e [
      | none ↦ go self (State.control_map_pause h)
      | some e' ↦
          if e'.fatal
          then (roll_back_or_fail env (held_update h) e' >>= go self)
          else go self (State.control_map_pause h)
    ]

  -- A pause is reported once, unless there is a state to go to for it.
  abbrev pause_held : State → Held → Option Held → M Outcome
  pause_held self h (some p) = go self (State.held p)
  pause_held self h none = do
    reported ← gets (λ s. contains s.pause_reported (state_name (held_id h)))
    if reported then go self (State.control_map_pause h) else report_pause self h

  unfoldable pub handle_control_map : Held → Option Held → M Outcome
  unfolding query report_update_status roll_back_or_fail
  handle_control_map h p = do
    action ← query (map_state_name h)
    let self = State.control_map h p
    if action =ₛ "pause"
        then pause_held self h p
        else if action =ₛ "fail"
        then fail_held self h
        else go self (State.held h)

  -- app/mender.go, `HandleControlMap`: true is an error.
  abbrev take_control_map : String → Option UpdateControlMap → M Bool
  take_control_map id none =
      pool_op env (λ writes c. delete_all_priorities writes id c) >> pure false
  take_control_map id (some cm) = if not (cm.id =ₛ "") && not (cm.id =ₛ id) then pure true else do
    t ← ask now env.time
    pool_op env (λ writes c.
        insert_replace_all_priorities writes
          (stamp t env.control_map_timeout (record cm { id = id })) c)
    pure false

  unfoldable pub handle_server_control_map : String → Option UpdateControlMap → M Bool
  unfolding insert_replace_all_priorities delete_all_priorities
  handle_server_control_map id cm = take_control_map id cm

  -- `RefreshServerUpdateControlMap`: the error of the server, or that of the map.
  unfoldable pub refresh_control_map : String → M (Option Err)
  unfolding handle_server_control_map
  refresh_control_map id = do
    (e, cm) ← ask (get_control_map id) (λ calls. (env.api_error calls, env.control_map calls))
    elim e [
      | some e' ↦ pure (some e')
      | none ↦ do
        refused ← handle_server_control_map id cm
        pure (if refused then some other else none)
    ]

  abbrev fetched : Held → Option Held → Option Err → M Outcome
  fetched h p none = do
    modify (λ s. record s { control_map_fetch_attempts = 0 })
    go (State.fetch_control_map h p) (State.control_map h p)
  fetched h p (some e) =
      if is_no_deployment e
      then fail_held (State.fetch_control_map h p) h
      else go (State.fetch_control_map h p) (State.fetch_retry_control_map h p)

  -- The server is asked only if the pool has a map of this deployment.
  unfoldable pub handle_fetch_control_map : Held → Option Held → M Outcome
  unfolding has_control_map refresh_control_map roll_back_or_fail
  handle_fetch_control_map h p = do
    let id = (held_update h).id
    c ← sync_pool env
    if has_control_map id c then (refresh_control_map id >>= fetched h p) else fetched h p none

  abbrev retry_refresh : Held → Option Held → Option ℕ → M Outcome
  retry_refresh h p none = fail_held (State.fetch_retry_control_map h p) h
  retry_refresh h p (some interval) = do
    modify (λ s. record s { control_map_fetch_attempts = suc s.control_map_fetch_attempts })
    wait_for env (State.fetch_retry_control_map h p) (State.fetch_control_map h p)
        (State.fetch_retry_control_map h p) interval

  unfoldable pub handle_fetch_retry_control_map : Held → Option Held → M Outcome
  unfolding get_exponential_backoff_time wait_for roll_back_or_fail
  handle_fetch_retry_control_map h p = do
    tried ← gets (λ s. s.control_map_fetch_attempts)
    retry_refresh h p
        (get_exponential_backoff_time tried env.update_poll_interval env.retry_poll_count)

  -- `MultiplexWait`: a cancel, too, names the state of the timer.
  abbrev multiplexed : Held → WaitResult → Outcome
  multiplexed h WaitResult.timer = record {
    self = State.control_map_pause h;
    next = State.fetch_control_map h none;
    cancelled = false;
  }
  multiplexed h WaitResult.woken = record {
    self = State.control_map_pause h;
    next = State.control_map h none;
    cancelled = false;
  }
  multiplexed h WaitResult.cancelled = record {
    self = State.control_map_pause h;
    next = State.fetch_control_map h none;
    cancelled = true;
  }

  -- A time that has passed is replaced by 30, nanoseconds.
  abbrev any_duration : ℕ → ℕ → ℕ
  any_duration half_time t = if ltb half_time t then 30 else half_time - t

  abbrev at_most : ℕ → ℕ → ℕ
  at_most longest d = if ltb longest d then longest else d

  abbrev or_thirty : ℕ → ℕ
  or_thirty d = if d == 0 then 30 else d

  abbrev pause_for_any : Held → Option ℕ → M Outcome
  pause_for_any h none = go (State.control_map_pause h) (State.control_map h none)
  pause_for_any h (some half_time) = do
    t ← ask now env.time
    wait_for env (State.control_map_pause h) (State.control_map h none) (State.control_map_pause h)
        (any_duration half_time t)

  abbrev pause_for_server : Held → ℕ → M Outcome
  pause_for_server h half_time = do
    t ← ask now env.time
    r ← ask (wait (or_thirty (at_most env.update_poll_interval (half_time - t)))) env.wait_result
    pure (multiplexed h r)

  unfoldable pub handle_control_map_pause : Held → M Outcome
  unfolding next_id_control_map_half_time next_any_control_map_half_time wait_for
  handle_control_map_pause h = do
    c ← sync_pool env
    elim (next_id_control_map_half_time (held_update h).id c) [
      | none ↦ do c' ← sync_pool env; pause_for_any h (next_any_control_map_half_time c')
      | some half_time ↦ pause_for_server h half_time
    ]
