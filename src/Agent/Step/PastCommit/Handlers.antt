-- ===== src/Agent/Step/PastCommit/Handlers.antt =====
-- app/state.go: the handlers of the states past the commit.
use ota_pulse.Prelude.{
  ℕ, zero, suc, ◌≡◌, refl, Bool, true, false, ◌||◌, Option, none, some, String, arith,
  if◌then◌else◌,
}
use ota_pulse.Errors.{MenderError}
use ota_pulse.Datastore.UpdateInfo.{UpdateInfo}
use ota_pulse.Agent.State.{State, StatusReport}
use ota_pulse.Agent.Transition.{Transition}
use ota_pulse.Agent.Env.{Env, Op, installer, Call, timer, woken, cancelled}
use ota_pulse.Agent.Machine.{
  ◌>>=◌, ◌>>◌, pure, try, wait_for, waited, set_broken_artifact_flag, sync_pool,
}
use ota_pulse.Agent.Report.{
  Sent, send_deployment_status, send_deployment_logs, report_update_status,
}
use ota_pulse.Agent.HandleError.{broken}
use ota_pulse.Agent.Handle.{
  handle, commit_rest, run_all, handle_update_after_first_commit, handle_update_cleanup,
  handle_status_report, handle_status_report_retry, logs_sent, status_sent,
}
use ota_pulse.Agent.Step.PastCommit.{
  IsCleanupTransition, after_success, after_failure, IsFinishing, in_first_commit, in_commit,
  in_cleanup, in_report, in_retry, IsFinishingOrIdle, finishing, ended, is_rollback, rollbacks,
  IsQuiet, Leads, Any, pure-IsQuiet, gets-IsQuiet, bind-IsQuiet, then-IsQuiet, modify-IsQuiet,
  if-IsQuiet, ask-IsQuiet,
}

module _ (env : Env) where
  abbrev try-IsQuiet : (c : Call) → is_rollback c ≡ false → IsQuiet Any (try env c)
  try-IsQuiet c e = ask-IsQuiet c _ e

  pub run_all-IsQuiet :
      (op : Op) (n rest : ℕ) (failed : Bool)
      → ((n : ℕ) → is_rollback (installer n op) ≡ false)
      → IsQuiet Any (run_all env op n rest failed)
  unfolding run_all
  run_all-IsQuiet op n zero failed e = pure-IsQuiet _ tt
  run_all-IsQuiet op n (suc rest) failed e =
      bind-IsQuiet Any (ask-IsQuiet _ _ (e n))
        λ b _. run_all-IsQuiet op (suc n) rest (failed || b) e

  commit_rest-IsQuiet : (n : ℕ) → IsQuiet Any (commit_rest env n)
  unfolding commit_rest
  commit_rest-IsQuiet zero = pure-IsQuiet _ tt
  commit_rest-IsQuiet (suc n) = run_all-IsQuiet Op.commit_update 1 n false (λ _. refl)

  pub broken-IsQuiet :
      {P : State → Type 0} (u : UpdateInfo) (s : State) → P s → IsQuiet P (broken env u s)
  unfolding broken set_broken_artifact_flag rollbacks ◌>>◌ ◌>>=◌ pure
  broken-IsQuiet u s l = record { run_quiet = λ m. (l, ground arith, refl) }

  wait_for-IsQuiet :
      (self next : State) (t : ℕ)
      → IsFinishing self
      → IsFinishing next
      → IsQuiet Leads (wait_for env self next self t)
  unfolding wait_for waited
  wait_for-IsQuiet self next t f g = bind-IsQuiet Any (ask-IsQuiet _ _ refl) λ r _.
      elim r as (λ r. IsQuiet Leads (pure (waited env self next self r))) [
        | timer ↦ pure-IsQuiet _ (f, finishing g)
        | woken ↦ pure-IsQuiet _ (f, finishing g)
        | cancelled ↦ pure-IsQuiet _ (f, finishing f)
      ]

  handle_update_after_first_commit-IsQuiet :
      (u : UpdateInfo) → IsQuiet Leads (handle_update_after_first_commit env u)
  unfolding handle_update_after_first_commit
  handle_update_after_first_commit-IsQuiet u = bind-IsQuiet Any (gets-IsQuiet _) λ n _.
      bind-IsQuiet Any (commit_rest-IsQuiet n) λ b _.
        if-IsQuiet b
          (bind-IsQuiet IsFinishingOrIdle
            (broken-IsQuiet u _ (finishing (in_cleanup after_failure)))
            λ s l. pure-IsQuiet _ (in_first_commit, l))
          (pure-IsQuiet _ (in_first_commit, finishing in_commit))

  sync_pool-IsQuiet : IsQuiet Any (sync_pool env)
  unfolding sync_pool rollbacks
  sync_pool-IsQuiet = record { run_quiet = λ m. (tt, ground arith, refl) }

  handle_update_cleanup-IsQuiet :
      (t : Transition) (status : String) (u : UpdateInfo)
      → IsCleanupTransition t
      → IsQuiet Leads (handle_update_cleanup env t status u)
  unfolding handle_update_cleanup
  handle_update_cleanup-IsQuiet t status u c = then-IsQuiet (ask-IsQuiet _ _ refl) (
      bind-IsQuiet Any (gets-IsQuiet _) λ n _.
        bind-IsQuiet Any (run_all-IsQuiet Op.cleanup 0 n false (λ _. refl)) λ b _.
          then-IsQuiet
            (bind-IsQuiet Any sync_pool-IsQuiet λ p _.
              bind-IsQuiet Any (ask-IsQuiet _ _ refl)
                λ f _. modify-IsQuiet _ (λ _. refl) (λ _. refl))
            (then-IsQuiet (modify-IsQuiet _ (λ _. refl) (λ _. refl))
              (pure-IsQuiet _ (in_cleanup c, finishing in_report))))

  send_deployment_status-IsQuiet :
      (u : UpdateInfo) (status : String) (tries : ℕ)
      → IsQuiet Any (send_deployment_status env u status tries)
  unfolding send_deployment_status report_update_status
  send_deployment_status-IsQuiet u status tries =
      bind-IsQuiet Any (bind-IsQuiet Any (ask-IsQuiet _ _ refl) λ e _. pure-IsQuiet _ tt)
        λ e _. pure-IsQuiet _ tt

  send_deployment_logs-IsQuiet :
      (u : UpdateInfo) (tries : ℕ) → IsQuiet Any (send_deployment_logs env u tries)
  unfolding send_deployment_logs
  send_deployment_logs-IsQuiet u tries = bind-IsQuiet Any (ask-IsQuiet _ _ refl) λ b _.
      if-IsQuiet b (pure-IsQuiet _ tt)
        (bind-IsQuiet Any (ask-IsQuiet _ _ refl) λ f _. pure-IsQuiet _ tt)

  leads_if :
      (b : Bool) (s : State) → IsFinishing s → IsFinishingOrIdle (if b then State.idle else s)
  leads_if true s f = ended
  leads_if false s f = finishing f

  logs_sent-IsQuiet :
      (r : StatusReport) (x : ℕ × Option MenderError) → IsQuiet Leads (logs_sent env r x)
  logs_sent-IsQuiet r (tries, none) =
      then-IsQuiet (ask-IsQuiet _ _ refl) (pure-IsQuiet _ (in_report, ended))
  logs_sent-IsQuiet r (tries, some e) = pure-IsQuiet _ (in_report, leads_if e.fatal _ in_retry)

  status_sent-IsQuiet : (r : StatusReport) (x : Sent) → IsQuiet Leads (status_sent env r x)
  status_sent-IsQuiet r x =
      elim x.send_error as (λ e. IsQuiet Leads (status_sent env r (record x { send_error = e }))) [
        | some e ↦ pure-IsQuiet _ (in_report, leads_if e.fatal _ in_retry)
        | none ↦
            if-IsQuiet _
              (bind-IsQuiet Any (send_deployment_logs-IsQuiet _ _) λ y _.
                logs_sent-IsQuiet (record r { update = x.update; tries_sending_report = x.tries })
                  y)
              (then-IsQuiet (ask-IsQuiet _ _ refl) (pure-IsQuiet _ (in_report, ended)))
      ]

  handle_status_report-IsQuiet : (r : StatusReport) → IsQuiet Leads (handle_status_report env r)
  unfolding handle_status_report
  handle_status_report-IsQuiet r = then-IsQuiet (ask-IsQuiet _ _ refl) (
      bind-IsQuiet Any (send_deployment_status-IsQuiet r.update r.status r.tries_sending_report)
        λ x _. status_sent-IsQuiet r x)

  handle_status_report_retry-IsQuiet :
      (r : StatusReport) (u : UpdateInfo) (tries : ℕ)
      → IsQuiet Leads (handle_status_report_retry env r u tries)
  unfolding handle_status_report_retry
  handle_status_report_retry-IsQuiet r u tries =
      if-IsQuiet _ (wait_for-IsQuiet _ _ _ in_retry in_report) (pure-IsQuiet _ (in_retry, ended))

  -- The handler of a state past the commit rolls nothing back, whatever fails, and leads to such a
  -- state or to the end of the update.
  pub handle-keeps_committed : {s : State} → IsFinishing s → IsQuiet Leads (handle env s)
  handle-keeps_committed (in_first_commit {u}) = handle_update_after_first_commit-IsQuiet u
  handle-keeps_committed in_commit =
      pure-IsQuiet _ (in_commit, finishing (in_cleanup after_success))
  handle-keeps_committed (in_cleanup {t} {status} {u} c) =
      handle_update_cleanup-IsQuiet t status u c
  handle-keeps_committed (in_report {r}) = handle_status_report-IsQuiet r
  handle-keeps_committed (in_retry {r} {u} {tries}) = handle_status_report_retry-IsQuiet r u tries
