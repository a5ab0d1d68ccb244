-- ===== src/Agent/Step/Interrupted.antt =====
-- app/state.go: a restart between the commit's store and the store of the state that follows it.
use mathlib.Core.Path.{subst}
use ota_pulse.Prelude.{
  ℕ, ◌<◌, ◌≡◌, refl, sym, ap, ◌∙◌, Bool, true, false, Option, some, List, ◌∷◌, lookup,
}
use ota_pulse.Datastore.StateName.{MenderState}
use ota_pulse.Datastore.UpdateInfo.{UpdateInfo, rollback_supported}
use ota_pulse.Datastore.Db.{Db, StateData, no_faults, text_entry, artifact_name_key}
use ota_pulse.Datastore.StateData.{
  Loaded, store_state_data_and_transaction, store_state_data, next_count, stored_count,
  maximum_state_data_store_count,
}
use ota_pulse.Datastore.StateData.Keeps.{store_state_data-keeps}
use ota_pulse.Datastore.Artifact.{commit_artifact_data}
use ota_pulse.Datastore.Artifact.Laws.{commit_artifact_data-name}
use ota_pulse.Agent.State.{State, commit}
use ota_pulse.Agent.Env.{Env, Call, store_state}
use ota_pulse.Agent.Machine.{Machine, ◌>>=◌, ◌>>◌, pure, modify, ask, load_state_of}
use ota_pulse.Agent.HandleError.{roll_back_or_fail}
use ota_pulse.Agent.Handle.{
  store_commit, commit_in_txn, get_next_state, restore_and_resume, resume, handle_init,
}
use ota_pulse.Agent.Step.PastCommit.Transitions.{StoreWorks}
use ota_pulse.Agent.Step.PastCommit.Restart.{load_state_of-stored}

abbrev pub is_rollback_state : State → Bool
is_rollback_state (State.rollback u) = true
is_rollback_state _ = false

-- What `CommitArtifactData` makes of the store for an update.
abbrev pub commit_of : Env → UpdateInfo → Db → Option Db
commit_of env u =
    commit_artifact_data env.wildcards u.artifact.artifact_name u.artifact.artifact_group
      u.artifact.type_info_provides u.artifact.clears_artifact_provides

module _ (env : Env) where
  store_commit-stored :
      (u : UpdateInfo) (m : Machine) {txn : Db}
      → StoreWorks env
      → commit_of env u m.db ≡ some txn
      → (store_commit env u m).1.db
        ≡ (store_state_data no_faults txn
            (record { version = 0; name = MenderState.update_commit; update_info = u })
            true).0
  unfolding store_commit store_state_data_and_transaction store_state_data
  store_commit-stored u m {txn} works e =
      let sd : StateData = record {
        version = 0;
        name = MenderState.update_commit;
        update_info = u;
      } in
      subst
        (λ f.
          (store_state_data_and_transaction f m.db sd true (commit_in_txn env f u)).0
          ≡ (store_state_data no_faults txn sd true).0)
        (sym (works (store_state MenderState.update_commit u true ∷ m.trace))) (rw e refl)

  resume-rolls_back :
      (version : ℕ) (u : UpdateInfo) (m : Machine)
      → u.supports_rollback ≡ rollback_supported
      → ((calls : List Call) → env.call_fails calls ≡ false)
      → is_rollback_state
          (resume env
            (Loaded.loaded
              (record { version = version; name = MenderState.update_commit; update_info = u }))
            m).0
        ≡ true
  unfolding resume restore_and_resume get_next_state roll_back_or_fail ◌>>=◌ ◌>>◌ pure modify ask
  resume-rolls_back version u m supported calm = rw (calm _, supported) refl

  -- If the agent restarts once the commit has stored its state, of an update that supports rollback,
  -- has no schema change and less than the maximum of stores, then the store has the name of the
  -- new artifact, and yet the first state after the restart leads to the rollback, if the store
  -- works and no call fails.
  pub interrupted_commit-rolls_back :
      (m m' : Machine) (u : UpdateInfo) {txn : Db}
      → StoreWorks env
      → ((calls : List Call) → env.call_fails calls ≡ false)
      → u.supports_rollback ≡ rollback_supported
      → u.has_db_schema_update ≡ false
      → commit_of env u m.db ≡ some txn
      → next_count (stored_count no_faults txn u) true < maximum_state_data_store_count
      → m'.db ≡ (store_commit env u m).1.db
      → (lookup artifact_name_key m'.db ≡ some (text_entry u.artifact.artifact_name))
        × (is_rollback_state (handle_init env m').0.next ≡ true)
  unfolding handle_init ◌>>=◌ pure
  interrupted_commit-rolls_back m m' u {txn} works calm supported committed e room same =
      let a = u.artifact in
      let stored = same ∙ store_commit-stored u m works e in
      let found =
        load_state_of-stored env m' txn (State.held (commit 0 u)) u true works committed room
          stored in
      (
        ap (lookup artifact_name_key) stored
            ∙ store_state_data-keeps txn _ true artifact_name_key refl refl
            ∙ commit_artifact_data-name env.wildcards a.artifact_name a.artifact_group
                a.type_info_provides a.clears_artifact_provides m.db e,
        subst (λ l. is_rollback_state (resume env l (load_state_of env m').1).0 ≡ true) (sym found)
            (resume-rolls_back 2 _ (load_state_of env m').1 supported calm),
      )
