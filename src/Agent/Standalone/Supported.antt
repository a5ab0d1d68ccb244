-- ===== src/Agent/Standalone/Supported.antt =====
-- app/standalone.go: only payloads that support it are rolled back.
mod Restores
pub mod Runs
use mathlib.Core.Path.{subst}
use ota_pulse.Prelude.{
  ℕ, zero, suc, ◌≡◌, ◌≢◌, refl, ◌⊎◌, inl, inr, String, Bool, true, false, not, ◌&&◌, ◌||◌, Option,
  none, some, List, [], ◌∷◌, ◌=ₛ◌, arith, if◌then◌else◌, length, lookup, Bool-cases,
}
use ota_pulse.Datastore.UpdateInfo.{
  rollback_supported, rollback_not_supported, set_supports_rollback,
}
use ota_pulse.Datastore.Db.{StandaloneStateData, Read, missing, undecodable, found}
use ota_pulse.Agent.Env.{Env, Call, Op, installer, scripts}
use ota_pulse.Agent.Machine.{Machine, M, ◌>>=◌, ◌>>◌, pure, gets, ask, try}
use ota_pulse.Agent.Handle.Payloads.{
  run_until_error, run_all, query_rollback_support, supported_type,
}
use ota_pulse.Agent.Step.PastCommit.{
  is_rollback, rollbacks, IsQuiet, Any, pure-IsQuiet, gets-IsQuiet, bind-IsQuiet, then-IsQuiet,
  ask-IsQuiet, if-IsQuiet,
}
use ota_pulse.Agent.Step.PastCommit.Handlers.{run_all-IsQuiet}
use ota_pulse.Agent.Standalone.States.{
  StandaloneData, Fault, supported_of, execute_all, call_error_script, determine_rollback_support,
  determine_reboot_needed, roll_back_if, failure_states_rollback, failure_states_failure,
  cleanup_transaction, cleanup, failure_name, rollback_part, failure_part, cleanup_part,
  failure_states, fail_in, leave_commit, with_broken_name, commit_states,
}

-- No payload answers that it supports a rollback.
abbrev pub HasNoSupport : Env → Type 0
HasNoSupport env = (calls : List Call) → env.rollback_support calls ≢ some true

-- The support so far, where no payload has any.
abbrev IsNone : String → Type 0
IsNone s = (s ≡ "") ⊎ (s ≡ rollback_not_supported)

abbrev pub IsUnsupported : Option Bool → Type 0
IsUnsupported o = o ≢ some true

set-IsNone :
    (s : String)
    → IsNone s
    → set_supports_rollback s rollback_not_supported ≡ some rollback_not_supported
unfolding set_supports_rollback
set-IsNone s (inl e) = rw e refl
set-IsNone s (inr e) = rw e refl

supported_of-IsUnsupported : (r : String × Bool) → IsNone r.0 → IsUnsupported (supported_of r)
supported_of-IsUnsupported (s, false) h e = cc
supported_of-IsUnsupported (s, true) (inl h) e =
    let e' = subst (λ t. supported_of (t, true) ≡ some true) h e in cc
supported_of-IsUnsupported (s, true) (inr h) e =
    let e' = subst (λ t. supported_of (t, true) ≡ some true) h e in cc

module _ (env : Env) (no_support : HasNoSupport env) where
  query-IsQuiet :
      (n rest : ℕ) (s : String)
      → IsNone s
      → IsQuiet (λ (r : String × Bool). IsNone r.0) (query_rollback_support env n rest s)
  unfolding query_rollback_support ask rollbacks
  query-IsQuiet n zero s h = pure-IsQuiet _ h
  query-IsQuiet n (suc rest) s h =
      let later = query-IsQuiet (suc n) rest rollback_not_supported (inr refl) in
      bind-IsQuiet IsUnsupported (record { run_quiet = λ m. (no_support _, omega arith, refl) })
        (answered later)
    where
      answered :
          IsQuiet
            (λ (r : String × Bool). IsNone r.0)
            (query_rollback_support env (suc n) rest rollback_not_supported)
          → (o : Option Bool) → IsUnsupported o
          → IsQuiet
              (λ (r : String × Bool). IsNone r.0)
              (elim o [
                | none ↦ pure (s, false)
                | some b ↦ elim (set_supports_rollback s (supported_type b)) [
                  | none ↦ pure (s, false)
                  | some s' ↦ query_rollback_support env (suc n) rest s'
                ]
              ])
      answered later none u = pure-IsQuiet _ h
      answered later (some true) u = absurd (u refl)
      answered later (some false) u = rw (set-IsNone s h) later

  pub determine_rollback_support-IsQuiet :
      (types : List String) → IsQuiet IsUnsupported (determine_rollback_support env types)
  unfolding determine_rollback_support
  determine_rollback_support-IsQuiet [] = pure-IsQuiet _ (λ e. cc)
  determine_rollback_support-IsQuiet (t ∷ types) =
      bind-IsQuiet (λ (r : String × Bool). IsNone r.0)
        (query-IsQuiet 0 (length (t ∷ types)) "" (inl refl))
        (λ r h. pure-IsQuiet _ (supported_of-IsUnsupported r h))

  -- A call that is no rollback, and what follows it.
  pub call_then :
      {B : Type 0} {k : Bool → M B} (c : Call)
      → is_rollback c ≡ false
      → ((b : Bool) → IsQuiet Any (k b))
      → IsQuiet Any (try env c >>= k)
  call_then c e next = bind-IsQuiet Any (ask-IsQuiet c env.call_fails e) (λ b _. next b)

  pub call_error_script-IsQuiet : (state : String) → IsQuiet Any (call_error_script env state)
  unfolding call_error_script
  call_error_script-IsQuiet state =
      then-IsQuiet (ask-IsQuiet (scripts state "Error" true none) env.call_fails refl)
        (pure-IsQuiet _ tt)

  pub run_until_error-IsQuiet :
      (op : Op) (n rest : ℕ)
      → ((n : ℕ) → is_rollback (installer n op) ≡ false)
      → IsQuiet Any (run_until_error env op n rest)
  unfolding run_until_error
  run_until_error-IsQuiet op n zero e = pure-IsQuiet _ tt
  run_until_error-IsQuiet op n (suc rest) e =
      let later = run_until_error-IsQuiet op (suc n) rest e in
      call_then (installer n op) (e n) (λ b. if-IsQuiet b (pure-IsQuiet _ tt) later)

  roll_back_if-IsQuiet :
      (sd : StandaloneData) (o : Option Bool)
      → IsUnsupported o
      → IsQuiet Any (roll_back_if env sd o)
  roll_back_if-IsQuiet sd none u = pure-IsQuiet _ tt
  roll_back_if-IsQuiet sd (some false) u = pure-IsQuiet _ tt
  roll_back_if-IsQuiet sd (some true) u = absurd (u refl)

  failure_states_rollback-IsQuiet :
      (sd : StandaloneData) → IsQuiet Any (failure_states_rollback env sd)
  unfolding failure_states_rollback
  failure_states_rollback-IsQuiet sd =
      bind-IsQuiet IsUnsupported (determine_rollback_support-IsQuiet sd.installers)
        (λ o u. roll_back_if-IsQuiet sd o u)

  failure_states_failure-IsQuiet :
      (sd : StandaloneData) → IsQuiet Any (failure_states_failure env sd)
  unfolding failure_states_failure
  failure_states_failure-IsQuiet sd =
      call_then (scripts "ArtifactFailure" "Enter" true none) refl (λ e.
        bind-IsQuiet Any (run_all-IsQuiet env Op.failure 0 (length sd.installers) e (λ _. refl))
          (λ e' _.
            call_then (scripts "ArtifactFailure" "Leave" true none) refl
              (λ e''. pure-IsQuiet _ tt)))

  cleanup_transaction-IsQuiet : (sd : StandaloneData) → IsQuiet Any (cleanup_transaction env sd)
  unfolding cleanup_transaction rollbacks
  cleanup_transaction-IsQuiet sd = record { run_quiet = λ s. (tt, omega arith, refl) }

  pub cleanup-IsQuiet : (sd : StandaloneData) → IsQuiet Any (cleanup env sd)
  unfolding cleanup
  cleanup-IsQuiet sd =
      bind-IsQuiet Any (run_all-IsQuiet env Op.cleanup 0 (length sd.installers) false (λ _. refl))
        (λ e _. bind-IsQuiet Any (cleanup_transaction-IsQuiet sd) (λ e' _. pure-IsQuiet _ tt))

  pub failure_states-IsQuiet :
      (sd : StandaloneData) (rollback failure clean : Bool)
      → IsQuiet Any (failure_states env sd rollback failure clean)
  unfolding failure_states
  failure_states-IsQuiet sd rollback failure clean =
      bind-IsQuiet Any
        (if-IsQuiet rollback (failure_states_rollback-IsQuiet sd) (pure-IsQuiet _ tt))
        (λ r _.
          bind-IsQuiet Any
            (if-IsQuiet failure (failure_states_failure-IsQuiet sd) (pure-IsQuiet _ tt))
            (λ e' _.
              bind-IsQuiet Any
                (if-IsQuiet clean
                  (cleanup-IsQuiet (failure_name (r.1 || e') r.0 rollback failure sd))
                  (pure-IsQuiet _ tt))
                (λ e'' _. pure-IsQuiet _ tt)))

  pub fail_in-IsQuiet :
      (state : String) (sd : StandaloneData) (late : Bool) → IsQuiet Any (fail_in env state sd late)
  unfolding fail_in
  fail_in-IsQuiet state sd late =
      then-IsQuiet (call_error_script-IsQuiet state)
        (then-IsQuiet (failure_states-IsQuiet sd late late true) (pure-IsQuiet _ tt))

  leave_commit-IsQuiet : (sd : StandaloneData) (e : Bool) → IsQuiet Any (leave_commit env sd e)
  leave_commit-IsQuiet sd true =
      then-IsQuiet (call_error_script-IsQuiet "ArtifactCommit")
        (then-IsQuiet (cleanup-IsQuiet (with_broken_name sd)) (pure-IsQuiet _ tt))
  leave_commit-IsQuiet sd false = bind-IsQuiet Any (cleanup-IsQuiet sd) (λ e _. pure-IsQuiet _ tt)

  pub commit_states-IsQuiet : (sd : StandaloneData) → IsQuiet Any (commit_states env sd)
  unfolding commit_states
  commit_states-IsQuiet sd =
      let fails = fail_in-IsQuiet "ArtifactCommit" sd true in
      call_then (scripts "ArtifactCommit" "Enter" false none) refl (λ e. if-IsQuiet e fails (
        bind-IsQuiet Any
          (run_until_error-IsQuiet Op.commit_update 0 (length sd.installers) (λ _. refl))
          (λ e' _. if-IsQuiet e' fails (
            call_then (scripts "ArtifactCommit" "Leave" false none) refl
              (leave_commit-IsQuiet sd)))))
