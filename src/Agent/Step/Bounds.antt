-- ===== src/Agent/Step/Bounds.antt =====
-- app/state.go: the bound on the attempts to report an update, which a restart keeps.
use ota_pulse.Prelude.{◌∷◌, ℕ, suc, ◌≤◌, ◌≡◌, refl, false, arith, some}
use ota_pulse.Errors.{MenderError, Err, is_deployment_aborted}
use ota_pulse.Datastore.StateName.{MenderState}
use ota_pulse.Datastore.UpdateInfo.{UpdateInfo}
use ota_pulse.Agent.Backoff.Laws.{max_sending_attempts_bounds}
use ota_pulse.Agent.State.{State, StatusReport, status_failure}
use ota_pulse.Agent.Env.{Env, enable_logger, report_status}
use ota_pulse.Agent.Machine.{Machine, ◌>>=◌, ◌>>◌, pure, ask}
use ota_pulse.Agent.Report.{report_update_status, send_deployment_status}
use ota_pulse.Agent.Handle.{handle_status_report, handle_status_report_retry, get_next_state}

-- Whatever the poll intervals, after eleven tries a failed report is not repeated: the update ends.
pub handle_status_report_retry-ends :
    (env : Env) (m : Machine) (r : StatusReport) (u : UpdateInfo) (tries : ℕ)
    → 11 ≤ tries
    → (handle_status_report_retry env r u tries m).0.next ≡ State.idle
unfolding handle_status_report_retry pure
handle_status_report_retry-ends env m r u tries h =
    let bound =
      max_sending_attempts_bounds env.update_poll_interval env.retry_poll_interval 3
        (omega arith) in
    ground (arith, bound)

-- The update with its count of attempts to report.
abbrev pub counted : StatusReport → UpdateInfo
counted r = record r.update { status_report_retry_attempts = suc r.tries_sending_report }

-- A report that fails, other than for an aborted deployment, is to be repeated with one more try,
-- and the update that is stored for it carries that number: a restart resumes with it.
pub handle_status_report-counts :
    (env : Env) (m m' : Machine) (r : StatusReport) {e : Err} (err : MenderError)
    → env.api_error (report_status r.update.id r.status ∷ enable_logger r.update.id ∷ m.trace)
      ≡ some e
    → is_deployment_aborted e ≡ false
    → ((handle_status_report env r m).0.next
        ≡ State.status_report_retry
            (record r { update = counted r; tries_sending_report = suc r.tries_sending_report })
            (counted r)
            (suc r.tries_sending_report))
      × ((get_next_state env MenderState.status_report_retry (counted r) err m').0
          ≡ State.update_status_report (record {
            update = counted r;
            status = status_failure;
            tries_sending_report = suc r.tries_sending_report;
            tries_sending_logs = 0;
          }))
unfolding handle_status_report send_deployment_status report_update_status get_next_state ◌>>=◌ ◌>>◌
    pure ask
handle_status_report-counts env m m' r err failed kept = (ground arith, refl)
