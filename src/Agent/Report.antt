-- ===== src/Agent/Report.antt =====
-- app/mender.go and app/state.go: reporting to the server.
use ota_pulse.Prelude.{ℕ, suc, String, Bool, false, Option, none, some, if◌then◌else◌}
use ota_pulse.Errors.{
  Err, other, is_deployment_aborted, MenderError, new_fatal_error, new_transient_error,
}
use ota_pulse.Datastore.UpdateInfo.{UpdateInfo}
use ota_pulse.Agent.Env.{Env, report_status, upload_log, get_logs}
use ota_pulse.Agent.Machine.{M, ◌>>=◌, pure, ask, try}

-- An aborted deployment is the one fatal error of a report.
abbrev report_result : Option Err → Option MenderError
report_result none = none
report_result (some e) =
    some (if is_deployment_aborted e then new_fatal_error e else new_transient_error e)

abbrev pub is_fatal : Option MenderError → Bool
is_fatal none = false
is_fatal (some e) = e.fatal

pub record Sent : Type 0 where
  pub update : UpdateInfo
  pub tries : ℕ
  pub send_error : Option MenderError

-- The tries are mirrored onto the update while they fail, and cleared when a report lands.
abbrev sent : UpdateInfo → ℕ → Option MenderError → Sent
sent u tries none = record {
  update = record u { status_report_retry_attempts = 0 };
  tries = tries;
  send_error = none;
}
sent u tries (some e) = record {
  update = record u { status_report_retry_attempts = tries };
  tries = tries;
  send_error = some e;
}

module _ (env : Env) where
  -- `Mender.ReportUpdateStatus`
  unfoldable pub report_update_status : UpdateInfo → String → M (Option MenderError)
  report_update_status u status = do
    e ← ask (report_status u.id status) env.api_error
    pure (report_result e)

  -- `sendDeploymentStatus`: the number of tries goes up before the report is sent.
  unfoldable pub send_deployment_status : UpdateInfo → String → ℕ → M Sent
  unfolding report_update_status
  send_deployment_status u status tries = do
    e ← report_update_status u status
    pure (sent u (suc tries) e)

  -- `sendDeploymentLogs`; the logs are never at hand and are read first. The tries go up only if
  -- that succeeds.
  unfoldable pub send_deployment_logs : UpdateInfo → ℕ → M (ℕ × Option MenderError)
  send_deployment_logs u tries = do
    unreadable ← try env (get_logs u.id)
    if unreadable then pure (tries, some (new_fatal_error other)) else do
      failed ← try env (upload_log u.id)
      pure (suc tries, if failed then some (new_transient_error other) else none)
