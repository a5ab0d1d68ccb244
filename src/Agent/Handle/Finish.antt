-- ===== src/Agent/Handle/Finish.antt =====
-- app/state.go: the states that end an update, whatever became of it.
use ota_pulse.Prelude.{ℕ, suc, String, false, Option, none, some, [], ltb, ◌=ₛ◌, if◌then◌else◌}
use ota_pulse.Errors.{MenderError}
use ota_pulse.Datastore.UpdateInfo.{UpdateInfo}
use ota_pulse.ControlMap.Pool.{delete_all_priorities}
use ota_pulse.Agent.Backoff.{max_sending_attempts, min_report_send_retries}
use ota_pulse.Agent.Transition.{Transition}
use ota_pulse.Agent.State.{
  State, StatusReport, new_update_cleanup, new_status_report, status_failure,
}
use ota_pulse.Agent.Env.{Env, Op, disable_logger}
use ota_pulse.Agent.Machine.{M, ◌>>=◌, ◌>>◌, modify, go, Outcome, try, enable_log, wait_for}
use ota_pulse.Agent.Report.{Sent, send_deployment_status, send_deployment_logs}
use ota_pulse.Agent.Handle.Payloads.{count_installers, run_all}
use ota_pulse.Agent.Handle.Idle.{pool_op}

module _ (env : Env) where
  unfoldable pub handle_update_error : MenderError → UpdateInfo → M Outcome
  unfolding run_all
  handle_update_error err u = do
    n ← count_installers
    run_all env Op.failure 0 n false
    go (State.update_error err u) (new_update_cleanup u status_failure)

  unfoldable pub handle_update_cleanup : Transition → String → UpdateInfo → M Outcome
  unfolding run_all
  handle_update_cleanup t status u = do
    enable_log env u.id
    n ← count_installers
    lost ← run_all env Op.cleanup 0 n false
    pool_op env (λ writes c. delete_all_priorities writes u.id c)
    modify (λ s. record s { last_inventory_update_attempt = 0; pause_reported = [] })
    let status' = if lost then status_failure else status
    go (State.update_cleanup t status' u) (new_status_report u status')

  abbrev end_report : StatusReport → M Outcome
  end_report r = try env disable_logger >> go (State.update_status_report r) State.idle

  abbrev pub logs_sent : StatusReport → ℕ × Option MenderError → M Outcome
  logs_sent r (tries, none) = end_report (record r { tries_sending_logs = tries })
  logs_sent r (tries, some e) =
      let r' = record r { tries_sending_logs = tries } in
      go (State.update_status_report r')
        (if e.fatal then State.idle else State.status_report_retry r' r'.update tries)

  -- The logs follow the report of a failure.
  abbrev pub status_sent : StatusReport → Sent → M Outcome
  status_sent r x =
      let r' = record r { update = x.update; tries_sending_report = x.tries } in
      elim x.send_error [
        | some e ↦
            go (State.update_status_report r')
              (if e.fatal then State.idle else State.status_report_retry r' r'.update x.tries)
        | none ↦
            if r'.status =ₛ status_failure
            then (send_deployment_logs env r'.update r'.tries_sending_logs >>= logs_sent r')
            else end_report r'
      ]

  unfoldable pub handle_status_report : StatusReport → M Outcome
  unfolding send_deployment_status send_deployment_logs
  handle_status_report r = do
    enable_log env r.update.id
    x ← send_deployment_status env r.update r.status r.tries_sending_report
    status_sent r x

  unfoldable pub handle_status_report_retry : StatusReport → UpdateInfo → ℕ → M Outcome
  unfolding max_sending_attempts wait_for
  handle_status_report_retry r u tries =
      let self = State.status_report_retry r u tries in
      if ltb tries (
        suc (
          max_sending_attempts env.update_poll_interval env.retry_poll_interval
            min_report_send_retries))
      then wait_for env self (State.update_status_report r) self env.retry_poll_interval
      else go self State.idle
