-- ===== src/Agent/Step/Commit.antt =====
-- app/state.go, `updateCommitState`: when the device counts as migrated to a new artifact.
use mathlib.Core.Path.{subst}
use ota_pulse.Datastore.StateName.{MenderState}
use ota_pulse.Prelude.{
  Option, ◌&&◌, ◌∷◌, ℕ, ◌≡◌, refl, ap, ◌∙◌, Bool, true, false, inl, inr, none, some, String, arith,
  if◌then◌else◌, lookup, Option-cases,
}
use ota_pulse.Errors.{MenderError}
use ota_pulse.Datastore.UpdateInfo.{UpdateInfo}
use ota_pulse.Datastore.Db.{text_entry, artifact_name_key}
use ota_pulse.Datastore.StateData.Keeps.{store_state_data_and_transaction-keeps}
use ota_pulse.Datastore.Artifact.Laws.{commit_artifact_data-name}
use ota_pulse.Agent.State.{State}
use ota_pulse.Agent.Env.{Env, store_state}
use ota_pulse.Agent.Machine.{Machine, M, Outcome, ◌>>=◌, ◌>>◌, pure, ask, set_broken_artifact_flag}
use ota_pulse.Agent.Report.{Sent, send_deployment_status, report_update_status}
use ota_pulse.Agent.HandleError.{roll_back_or_fail, broken, handle_state_data_error}
use ota_pulse.Agent.Handle.{
  fail_commit, clears_some, commit_in_txn, store_commit, committed, commit_payload, reported,
  handle_update_commit,
}

abbrev pub is_first_commit : State → Bool
is_first_commit (State.update_after_first_commit u) = true
is_first_commit _ = false

-- A result that leads past the first commit comes with the name of the artifact in the store.
record IsNamed (name : String) (m : M Outcome) : Type 0 where
  run_named :
      (s : Machine)
      → is_first_commit (m s).0.next ≡ true
      → lookup artifact_name_key (m s).1.db ≡ some (text_entry name)

bind-IsNamed :
    {A : Type 0} (Q : A → Type 0) {name : String} (m : M A) {k : A → M Outcome}
    → ((s : Machine) → Q (m s).0)
    → ((a : A) → Q a → IsNamed name (k a))
    → IsNamed name (m >>= k)
unfolding ◌>>=◌
bind-IsNamed Q m q then_on = record {
  run_named = λ s h. (then_on (m s).0 (q s)).run_named (m s).1 h;
}

then-IsNamed :
    {A : Type 0} {name : String} (m : M A) {k : M Outcome} → IsNamed name k → IsNamed name (m >> k)
unfolding ◌>>◌ ◌>>=◌
then-IsNamed m n = record { run_named = λ s h. n.run_named (m s).1 h }

if-IsNamed :
    {name : String} (b : Bool) {m k : M Outcome}
    → IsNamed name m
    → IsNamed name k
    → IsNamed name (if b then m else k)
if-IsNamed true n o = n
if-IsNamed false n o = o

abbrev Anything {ℓ} : {A : Type ℓ} → A → Type 0
Anything a = Unit

some_else :
    {A : Type 0} (b : Bool) {o : Option A} {a : A} → (if b then none else o) ≡ some a → o ≡ some a
some_else b e = ground arith

module _ (env : Env) where
  store_commit-name :
      (u : UpdateInfo) (s : Machine)
      → (store_commit env u s).0 ≡ none
      → lookup artifact_name_key (store_commit env u s).1.db
        ≡ some (text_entry u.artifact.artifact_name)
  unfolding store_commit
  store_commit-name u s h =
      let a = u.artifact in
      let f = env.txn_faults (store_state MenderState.update_commit u true ∷ s.trace) in
      let (txn, e, kept) =
        store_state_data_and_transaction-keeps f s.db
          (record { version = 0; name = MenderState.update_commit; update_info = u }) true
          (commit_in_txn env f u) artifact_name_key h refl refl in
      kept
      ∙ commit_artifact_data-name env.wildcards a.artifact_name a.artifact_group
          a.type_info_provides a.clears_artifact_provides s.db
          (some_else (f.read_fails && clears_some a.clears_artifact_provides) e)

  fail_commit-IsNamed :
      (name : String) (tries : ℕ) (u : UpdateInfo) (e : MenderError)
      → IsNamed name (fail_commit env tries u e)
  unfolding roll_back_or_fail broken set_broken_artifact_flag ◌>>=◌ ◌>>◌ pure
  fail_commit-IsNamed name tries u e = record { run_named = λ s h. absurd (ground arith) }

  committed-IsNamed :
      (tries : ℕ) (u : UpdateInfo)
      → IsNamed u.artifact.artifact_name (store_commit env u >>= committed env tries u)
  unfolding ◌>>=◌ ◌>>◌ pure handle_state_data_error broken set_broken_artifact_flag
  committed-IsNamed tries u = record {
    run_named = λ s h. elim (Option-cases (store_commit env u s).0) [
      | inl e ↦ rw e (store_commit-name u s e)
      | inr (e', e) ↦ absurd (ground arith)
    ];
  }

  commit_payload-IsNamed :
      (tries : ℕ) (u : UpdateInfo) → IsNamed u.artifact.artifact_name (commit_payload env tries u)
  commit_payload-IsNamed tries u =
      bind-IsNamed Anything _ (λ _. tt)
        λ n _.
          bind-IsNamed Anything _ (λ _. tt)
            λ lost _.
              if-IsNamed lost (fail_commit-IsNamed _ tries u _)
                (committed-IsNamed tries (record u { has_db_schema_update = false }))

  sent-artifact :
      (u : UpdateInfo) (status : String) (tries : ℕ) (s : Machine)
      → (send_deployment_status env u status tries s).0.update.artifact ≡ u.artifact
  unfolding send_deployment_status report_update_status ◌>>=◌ pure ask
  sent-artifact u status tries s = ground arith

  reported-IsNamed :
      (name : String) (r : Sent)
      → r.update.artifact.artifact_name ≡ name
      → IsNamed name (reported env r)
  unfolding pure
  reported-IsNamed name r e =
      elim r.send_error as (λ x. IsNamed name (reported env (record r { send_error = x }))) [
        | none ↦
            subst (λ n. IsNamed n (commit_payload env r.tries r.update)) e
              (commit_payload-IsNamed r.tries r.update)
        | some err ↦
            if-IsNamed err.fatal (fail_commit-IsNamed name r.tries r.update err)
              (record { run_named = λ s h. absurd (ground arith) })
      ]

  commit-IsNamed :
      (tries : ℕ) (u : UpdateInfo)
      → IsNamed u.artifact.artifact_name (handle_update_commit env tries u)
  unfolding handle_update_commit
  commit-IsNamed tries u = then-IsNamed _ (
      bind-IsNamed Anything _ (λ _. tt)
        λ unsupported _. if-IsNamed unsupported (fail_commit-IsNamed _ tries u _) (
          then-IsNamed _ (
            bind-IsNamed (λ r. r.update.artifact ≡ u.artifact) _ (sent-artifact u _ tries)
              λ r e. reported-IsNamed _ r (ap (λ a. a.artifact_name) e))))

  -- When the commit leads past the first commit, the store holds the name of the new artifact,
  -- whatever its calls did.
  pub handle_update_commit-stores_name :
      (tries : ℕ) (u : UpdateInfo) (m : Machine)
      → is_first_commit (handle_update_commit env tries u m).0.next ≡ true
      → lookup artifact_name_key (handle_update_commit env tries u m).1.db
        ≡ some (text_entry u.artifact.artifact_name)
  handle_update_commit-stores_name tries u m h = (commit-IsNamed tries u).run_named m h
