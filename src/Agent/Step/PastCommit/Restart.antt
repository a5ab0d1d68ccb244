-- ===== src/Agent/Step/PastCommit/Restart.antt =====
-- app/state.go, `initState`: an update that was stored past its commit goes on past it after a
-- restart.
use mathlib.Core.Path.{subst}
use ota_pulse.Prelude.{arith, ℕ, suc, ◌<◌, ◌≡◌, refl, sym, ◌∙◌, Bool, false}
use ota_pulse.Errors.{MenderError, new_fatal_error, other}
use ota_pulse.Datastore.UpdateInfo.{UpdateInfo}
use ota_pulse.Datastore.Db.{Db, StateData, no_faults}
use ota_pulse.Datastore.StateData.{
  loaded, store_state_data, next_count, stored_count, with_count, maximum_state_data_store_count,
}
use ota_pulse.Datastore.StateData.Laws.{as_stored, load-store_state_data}
use ota_pulse.Agent.State.{State, state_id}
use ota_pulse.Agent.Env.{Env}
use ota_pulse.Agent.Machine.{Machine, ◌>>=◌, pure, load_state_of}
use ota_pulse.Agent.Handle.{get_next_state, restore_and_resume, resume, handle_init}
use ota_pulse.Agent.Step.PastCommit.{
  after_failure, IsFinishing, in_first_commit, in_commit, in_cleanup, in_report, in_retry,
  rollbacks, IsQuiet, Any, pure-IsQuiet, bind-IsQuiet, then-IsQuiet, if-IsQuiet, ask-IsQuiet,
  modify-IsQuiet,
}
use ota_pulse.Agent.Step.PastCommit.Transitions.{StoreWorks}

module _ (env : Env) where
  get_next_state-IsQuiet :
      {s : State} (u : UpdateInfo) (e : MenderError)
      → IsFinishing s
      → IsQuiet IsFinishing (get_next_state env (state_id s) u e)
  unfolding get_next_state
  get_next_state-IsQuiet u e in_first_commit = pure-IsQuiet _ in_first_commit
  get_next_state-IsQuiet u e in_commit = pure-IsQuiet _ in_commit
  get_next_state-IsQuiet u e (in_cleanup _) = pure-IsQuiet _ (in_cleanup after_failure)
  get_next_state-IsQuiet u e in_report = pure-IsQuiet _ in_report
  get_next_state-IsQuiet u e in_retry = pure-IsQuiet _ in_report

  abbrev pub data_of : ℕ → State → UpdateInfo → StateData
  data_of version s u = record { version = version; name = state_id s; update_info = u }

  resume-IsQuiet :
      {s : State} (version : ℕ) (u : UpdateInfo)
      → IsFinishing s
      → IsQuiet IsFinishing (resume env (loaded (data_of version s u)))
  unfolding resume restore_and_resume
  resume-IsQuiet version u f = then-IsQuiet (ask-IsQuiet _ _ refl) (
      bind-IsQuiet Any (ask-IsQuiet _ _ refl) λ lost _.
        then-IsQuiet (modify-IsQuiet _ (λ _. refl) (λ _. refl)) (
          if-IsQuiet lost (pure-IsQuiet _ in_report)
            (get_next_state-IsQuiet u (new_fatal_error other) f)))

  pub load_state_of-stored :
      (m : Machine) (db : Db) (s : State) (u : UpdateInfo) (inc : Bool)
      → StoreWorks env
      → u.has_db_schema_update ≡ false
      → next_count (stored_count no_faults db u) inc < maximum_state_data_store_count
      → m.db ≡ (store_state_data no_faults db (data_of 0 s u) inc).0
      → (load_state_of env m).0
        ≡ loaded (
            with_count
              (as_stored (data_of 2 s u))
              (suc (next_count (stored_count no_faults db u) inc)))
  unfolding load_state_of store_state_data
  load_state_of-stored m db s u inc works committed room e =
      rw (works _, e) (load-store_state_data db (data_of 2 s u) inc refl committed room)

  -- If the last state stored was one past the commit, of an update without a schema change and with
  -- less than the maximum of stores, then the first state after a restart leads past the commit
  -- again and rolls nothing back, if the store works.
  pub restart-keeps_committed :
      (m : Machine) (db : Db) {s : State} (u : UpdateInfo) (inc : Bool)
      → StoreWorks env
      → IsFinishing s
      → u.has_db_schema_update ≡ false
      → next_count (stored_count no_faults db u) inc < maximum_state_data_store_count
      → m.db
        ≡ (store_state_data no_faults db
            (record { version = 0; name = state_id s; update_info = u })
            inc).0
      → IsFinishing (handle_init env m).0.next
        × (rollbacks (handle_init env m).1.trace ≡ rollbacks m.trace)
  unfolding handle_init ◌>>=◌ pure load_state_of rollbacks
  restart-keeps_committed m db {s} u inc works f committed room e =
      let after = (load_state_of env m).1 in
      let found = load_state_of-stored m db s u inc works committed room e in
      subst
        (λ l.
          IsFinishing (resume env l after).0
          × (rollbacks (resume env l after).1.trace ≡ rollbacks m.trace))
        (sym found)
        (let (next, same, _) = (resume-IsQuiet 2 _ f).run_quiet after in
          (next, same ∙ ground arith))
