-- ===== src/Agent/Step/PastCommit/Scripts.antt =====
-- app/mender.go, the scripts of a transition into the states past the commit.
use mathlib.Core.Path.{subst}
use ota_pulse.Prelude.{ℕ, ◌≡◌, refl, sym, Bool, true, false, Option, List, ◌∷◌, String, arith}
use ota_pulse.Datastore.UpdateInfo.{UpdateInfo}
use ota_pulse.Agent.Transition.{Transition, get_name, ignore_errors}
use ota_pulse.Agent.State.{State, commit, state_transition}
use ota_pulse.Agent.Env.{Env, Call, scripts}
use ota_pulse.Agent.Machine.{ask}
use ota_pulse.Agent.Step.{run_scripts, leave_scripts, enter_scripts, report_for, error_report}
use ota_pulse.Agent.Step.PastCommit.{
  after_success, after_failure, IsFinishing, in_first_commit, in_commit, in_cleanup, in_report,
  in_retry, rollbacks, IsQuiet, Any, pure-IsQuiet, then-IsQuiet, if-IsQuiet, weaken-IsQuiet,
  ask-IsQuiet,
}

-- The state that an update comes from: the commit itself, or one that follows it.
pub data HasCommitted : State → Type 0 where
  at_commit : {tries : ℕ} {u : UpdateInfo} → HasCommitted (State.held (commit tries u))
  past_commit : {s : State} → IsFinishing s → HasCommitted s

-- The scripts of the transition "Error", whose errors are not ignored, succeed.
abbrev pub ErrorScriptsPass : Env → Type 0
ErrorScriptsPass env =
    (action : String) (report : Option String) (calls : List Call)
    → env.call_fails (scripts "Error" action false report ∷ calls) ≡ false

-- Only the scripts on leaving the commit can fail.
pub data LeaveResult : State → Bool → Type 0 where
  left_well : {s : State} → LeaveResult s false
  commit_leave_failed : {u : UpdateInfo} → LeaveResult (State.update_after_commit u) true

module _ (env : Env) (pass : ErrorScriptsPass env) where
  error_scripts-IsQuiet :
      {P : Bool → Type 0} (action : String) (report : Option String)
      → P false
      → IsQuiet P (ask (scripts "Error" action false report) env.call_fails)
  unfolding ask rollbacks
  error_scripts-IsQuiet {P} action report p = record {
    run_quiet = λ s. (subst P (sym (pass action report s.trace)) p, ground arith, refl);
  }

  any_scripts-IsQuiet :
      (t : Transition) (action : String) (ignores : Bool) (report : Option String)
      → IsQuiet Any (run_scripts env t action ignores report)
  unfolding run_scripts
  any_scripts-IsQuiet t action ignores report =
      if-IsQuiet _ (pure-IsQuiet _ tt) (ask-IsQuiet _ _ refl)

  commit_leave-IsQuiet :
      {u : UpdateInfo} (report : Option String)
      → IsQuiet
          (LeaveResult (State.update_after_commit u))
          (ask (scripts "ArtifactCommit" "Leave" false report) env.call_fails)
  commit_leave-IsQuiet {u} report = weaken-IsQuiet Any (ask-IsQuiet _ _ refl) λ b _.
      elim b as (LeaveResult (State.update_after_commit u)) [
        | true ↦ commit_leave_failed
        | false ↦ left_well
      ]

  leave-IsQuiet :
      {from : State} (report : Option String)
      → HasCommitted from
      → IsQuiet (LeaveResult from) (
          run_scripts env
            (state_transition from)
            "Leave"
            (ignore_errors (state_transition from))
            report)
  unfolding run_scripts get_name
  leave-IsQuiet report at_commit = pure-IsQuiet _ left_well
  leave-IsQuiet report (past_commit in_first_commit) = pure-IsQuiet _ left_well
  leave-IsQuiet report (past_commit in_commit) = commit_leave-IsQuiet report
  leave-IsQuiet report (past_commit (in_cleanup after_success)) = pure-IsQuiet _ left_well
  leave-IsQuiet report (past_commit (in_cleanup after_failure)) =
      error_scripts-IsQuiet "Leave" report left_well
  leave-IsQuiet report (past_commit in_report) = pure-IsQuiet _ left_well
  leave-IsQuiet report (past_commit in_retry) = pure-IsQuiet _ left_well

  pub leave_scripts-IsQuiet :
      {from : State} (to : State)
      → HasCommitted from
      → IsQuiet (LeaveResult from) (leave_scripts env from to)
  unfolding leave_scripts
  leave_scripts-IsQuiet {from} to c = if-IsQuiet _ (pure-IsQuiet _ left_well) (
      if-IsQuiet _
        (then-IsQuiet
          (any_scripts-IsQuiet (state_transition from) "Error" true (error_report from to))
          (pure-IsQuiet _ left_well))
        (leave-IsQuiet (report_for to) c))

  enter-IsQuiet :
      {to : State} (report : Option String)
      → IsFinishing to
      → IsQuiet
          (λ b. b ≡ false)
          (run_scripts env
            (state_transition to)
            "Enter"
            (ignore_errors (state_transition to))
            report)
  unfolding run_scripts get_name
  enter-IsQuiet report in_first_commit = pure-IsQuiet _ refl
  enter-IsQuiet report in_commit = pure-IsQuiet _ refl
  enter-IsQuiet report (in_cleanup after_success) = pure-IsQuiet _ refl
  enter-IsQuiet report (in_cleanup after_failure) = error_scripts-IsQuiet "Enter" report refl
  enter-IsQuiet report in_report = pure-IsQuiet _ refl
  enter-IsQuiet report in_retry = pure-IsQuiet _ refl

  pub enter_scripts-IsQuiet :
      (from : State) {to : State}
      → IsFinishing to
      → IsQuiet (λ b. b ≡ false) (enter_scripts env from to)
  unfolding enter_scripts
  enter_scripts-IsQuiet from {to} f =
      if-IsQuiet _ (enter-IsQuiet (report_for to) f) (pure-IsQuiet _ refl)
