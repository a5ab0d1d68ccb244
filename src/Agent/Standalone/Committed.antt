-- ===== src/Agent/Standalone/Committed.antt =====
-- app/standalone.go: what a commit from the command line leaves in the store.
use ota_pulse.Prelude.{
  ◌≡◌, refl, ◌∙◌, ◌∷◌, String, Bool, true, false, Option, none, some, arith, ◌=ₛ◌, ◌==◌,
  if◌then◌else◌, length, lookup, delete, lookup-delete,
}
use ota_pulse.Datastore.Db.{
  Db, TxnFaults, Read, StandaloneStateData, text_entry, artifact_name_key, standalone_state_key,
  found, read_standalone_data,
}
use ota_pulse.Datastore.Artifact.{commit_artifact_data}
use ota_pulse.Datastore.Artifact.Laws.{commit_artifact_data-name, commit_artifact_data-keeps}
use ota_pulse.Agent.Env.{Env, Op, restore_installers, read_standalone, standalone_transaction}
use ota_pulse.Agent.Machine.{Machine, M, ◌>>=◌, ◌>>◌, pure, ask, gets, try}
use ota_pulse.Agent.Handle.Payloads.{run_all}
use ota_pulse.Agent.Standalone.States.{
  StandaloneData, Fault, failed, or_empty, commit_name, reads_provides, transacted,
  cleanup_transaction, cleanup, fail_in, leave_commit, commit_states, fault_if,
}
use ota_pulse.Agent.Standalone.Restore.{
  Site, restored_data, decoded, restore_standalone_data, commit_restored, do_standalone_commit,
  standalone_state_data_version, no_data,
}

-- The store names the artifact, and none waits for its commit.
abbrev pub IsCommitted : String → Db → Type 0
IsCommitted name db =
    (lookup artifact_name_key db ≡ some (text_entry name)) × (lookup standalone_state_key db ≡ none)

pub record Commits (name : String) (m : M (Option Fault)) : Type 0 where
  pub run_commits : (s : Machine) → (m s).0 ≡ none → IsCommitted name (m s).1.db

pub bind-Commits :
    {A : Type 0} {name : String} (m : M A) {k : A → M (Option Fault)}
    → ((a : A) → Commits name (k a))
    → Commits name (m >>= k)
unfolding ◌>>=◌
bind-Commits m next = record { run_commits = λ s h. (next (m s).0).run_commits (m s).1 h }

pub if-Commits :
    {name : String} (b : Bool) {m k : M (Option Fault)}
    → Commits name m
    → Commits name k
    → Commits name (if b then m else k)
if-Commits true c d = c
if-Commits false c d = d

pub failed-Commits : (name : String) → Commits name (pure (some failed))
unfolding pure
failed-Commits name = record { run_commits = λ s h. absurd (ground arith) }

-- A transaction without an error has stored the result.
transacted-stored :
    (f : TxnFaults) (reads : Bool) (db : Db) (o : Option Db)
    → (transacted f reads db o).0 ≡ false
    → o ≡ some (transacted f reads db o).1
transacted-stored f reads db o h = ground arith

module _ (env : Env) where
  commit_name-IsCommitted :
      (sd : StandaloneData) (db : Db) {db' : Db}
      → (sd.artifact_name =ₛ "") ≡ false
      → commit_name env sd (delete standalone_state_key db) ≡ some db'
      → IsCommitted sd.artifact_name db'
  commit_name-IsCommitted sd db {db'} named h =
      let provides = or_empty sd.artifact_type_info_provides in
      let clears = sd.artifact_clears_provides in
      let rest = delete standalone_state_key db in
      let stored : commit_artifact_data env.wildcards sd.artifact_name sd.artifact_group provides
            clears rest
          ≡ some db' =
        ground arith in
      (
        commit_artifact_data-name env.wildcards sd.artifact_name sd.artifact_group provides clears
            rest stored,
        commit_artifact_data-keeps env.wildcards standalone_state_key sd.artifact_name
              sd.artifact_group provides clears rest refl refl refl stored
            ∙ lookup-delete standalone_state_key standalone_state_key db,
      )

  cleanup_transaction-IsCommitted :
      (sd : StandaloneData) (s : Machine)
      → (sd.artifact_name =ₛ "") ≡ false
      → (cleanup_transaction env sd s).0 ≡ false
      → IsCommitted sd.artifact_name (cleanup_transaction env sd s).1.db
  unfolding cleanup_transaction
  cleanup_transaction-IsCommitted sd s named h =
      let faults = env.txn_faults (standalone_transaction ∷ s.trace) in
      let result = commit_name env sd (delete standalone_state_key s.db) in
      commit_name-IsCommitted sd s.db named
        (transacted-stored faults (reads_provides sd) s.db result h)

  finish-Commits :
      (sd : StandaloneData)
      → (sd.artifact_name =ₛ "") ≡ false
      → Commits sd.artifact_name (cleanup env sd >>= λ e. pure (fault_if e))
  unfolding cleanup ◌>>=◌ pure
  finish-Commits sd named = record {
    run_commits = λ s h.
        cleanup_transaction-IsCommitted sd
          (run_all env Op.cleanup 0 (length sd.installers) false s).1 named (ground arith);
  }

  pub fail_in-Commits :
      (name state : String) (sd : StandaloneData) (late : Bool)
      → Commits name (fail_in env state sd late)
  unfolding fail_in ◌>>◌
  fail_in-Commits name state sd late =
      bind-Commits _ (λ _. bind-Commits _ (λ _. failed-Commits name))

  leave_commit-Commits :
      (sd : StandaloneData) (e : Bool)
      → (sd.artifact_name =ₛ "") ≡ false
      → Commits sd.artifact_name (leave_commit env sd e)
  unfolding ◌>>◌
  leave_commit-Commits sd true named = bind-Commits _ (λ _. bind-Commits _ (λ _. failed-Commits _))
  leave_commit-Commits sd false named = finish-Commits sd named

  commit_states-Commits :
      (sd : StandaloneData)
      → (sd.artifact_name =ₛ "") ≡ false
      → Commits sd.artifact_name (commit_states env sd)
  unfolding commit_states
  commit_states-Commits sd named =
      let fails = fail_in-Commits sd.artifact_name "ArtifactCommit" sd true in
      bind-Commits _ (λ e. if-Commits e fails (
        bind-Commits _
          (λ e'. if-Commits e' fails (bind-Commits _ (λ e''. leave_commit-Commits sd e'' named)))))

module _ (env : Env) (site : Site) where
  restored-Commits :
      (d : StandaloneStateData) (lost : Bool)
      → (d.artifact_name =ₛ "") ≡ false
      → Commits d.artifact_name (
          commit_restored env site
            (if lost then no_data failed else (some (restored_data d), none)))
  restored-Commits d true named = failed-Commits d.artifact_name
  restored-Commits d false named = commit_states-Commits env (restored_data d) named

  with_version-Commits :
      (d : StandaloneStateData) (current : Bool)
      → (d.artifact_name =ₛ "") ≡ false
      → Commits d.artifact_name (
          (if current
            then (try env (restore_installers d.payload_types) >>= λ lost.
                pure (if lost then no_data failed else (some (restored_data d), none)))
            else pure (no_data failed))
          >>= commit_restored env site)
  unfolding ◌>>=◌ pure
  with_version-Commits d true named = record {
    run_commits = λ s h. (restored-Commits d _ named).run_commits _ h;
  }
  with_version-Commits d false named = failed-Commits d.artifact_name

  read-Commits :
      (d : StandaloneStateData) (lost : Bool) {r : Read StandaloneStateData}
      → (d.artifact_name =ₛ "") ≡ false
      → r ≡ found d
      → Commits d.artifact_name (
          (if lost then pure (no_data failed) else decoded env site r) >>= commit_restored env site)
  unfolding ◌>>=◌ pure
  read-Commits d true named e = failed-Commits d.artifact_name
  read-Commits d false named e =
      rw e (with_version-Commits d (d.version == standalone_state_data_version) named)

-- When an artifact with a name waits for its commit in the store, a commit from the command line that
-- returns without an error leaves its name in the store, and no artifact that waits.
pub do_standalone_commit-stores_name :
    (env : Env) (site : Site) (s : Machine) (d : StandaloneStateData)
    → read_standalone_data (lookup standalone_state_key s.db) ≡ found d
    → (d.artifact_name =ₛ "") ≡ false
    → (do_standalone_commit env site s).0 ≡ none
    → IsCommitted d.artifact_name (do_standalone_commit env site s).1.db
unfolding do_standalone_commit restore_standalone_data ◌>>=◌ pure ask gets
do_standalone_commit-stores_name env site s d waiting named h =
    let calls = read_standalone ∷ s.trace in
    (read-Commits env site d (env.call_fails calls) named waiting).run_commits
      (record s { trace = calls }) h
