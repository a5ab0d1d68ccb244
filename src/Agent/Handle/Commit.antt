-- ===== src/Agent/Handle/Commit.antt =====
-- app/state.go: the states that commit an update.
use ota_pulse.Prelude.{
  List, String, ◌&&◌, ℕ, zero, suc, Bool, true, false, Option, none, some, ◌∷◌, ltb, if◌then◌else◌,
}
use ota_pulse.Errors.{Err, other, MenderError, new_transient_error}
use ota_pulse.Datastore.StateName.{MenderState}
use ota_pulse.Datastore.UpdateInfo.{UpdateInfo}
use ota_pulse.Datastore.Db.{Db, TxnFaults, StateData}
use ota_pulse.Datastore.StateData.{store_state_data_and_transaction}
use ota_pulse.Datastore.Artifact.{commit_artifact_data}
use ota_pulse.Agent.Backoff.{max_sending_attempts, min_report_send_retries}
use ota_pulse.Agent.State.{
  State, Held, commit, held_update, new_update_cleanup, status_failure, status_success,
  status_installing,
}
use ota_pulse.Agent.Env.{Env, Op, check_scripts, clear_authorization, store_state}
use ota_pulse.Agent.Machine.{
  M, ◌>>=◌, ◌>>◌, pure, go, Outcome, try, enable_log, installer_op, wait_for,
}
use ota_pulse.Agent.Report.{Sent, send_deployment_status}
use ota_pulse.Agent.HandleError.{roll_back_or_fail, broken, handle_state_data_error}
use ota_pulse.Agent.Handle.Payloads.{count_installers, run_all}

abbrev pub clears_some : Option (List String) → Bool
clears_some none = false
clears_some (some clears) = true

module _ (env : Env) where
  -- `CommitArtifactData` reads the old provides where the artifact clears some of them.
  abbrev pub commit_in_txn : TxnFaults → UpdateInfo → Db → Option Db
  commit_in_txn f u db =
      let a = u.artifact in
      if f.read_fails && clears_some a.clears_artifact_provides
      then none
      else commit_artifact_data env.wildcards a.artifact_name a.artifact_group a.type_info_provides
          a.clears_artifact_provides db

  abbrev pub fail_commit : ℕ → UpdateInfo → MenderError → M Outcome
  fail_commit tries u err = do
    next ← roll_back_or_fail env u err
    go (State.held (commit tries u)) next

  -- The state data is stored in one transaction with what the device has become.
  unfoldable pub store_commit : UpdateInfo → M (Option Err)
  unfolding store_state_data_and_transaction commit_artifact_data
  store_commit u s =
      let name = MenderState.update_commit in
      let calls = store_state name u true ∷ s.trace in
      let sd : StateData = record { version = 0; name = name; update_info = u } in
      let f = env.txn_faults calls in
      let (db', err) = store_state_data_and_transaction f s.db sd true (commit_in_txn f u) in
      (err, record s { trace = calls; db = db' })

  abbrev pub committed : ℕ → UpdateInfo → Option Err → M Outcome
  committed tries u none = go (State.held (commit tries u)) (State.update_after_first_commit u)
  committed tries u (some e) = do
    (next, cancelled) ←
        handle_state_data_error env (State.update_error (new_transient_error e) u) false u e
    pure (record { self = State.held (commit tries u); next = next; cancelled = cancelled })

  -- Commits the first payload.
  unfoldable pub commit_first : ℕ → M Bool
  commit_first zero = pure false
  commit_first (suc n) = installer_op env 0 Op.commit_update

  abbrev pub commit_payload : ℕ → UpdateInfo → M Outcome
  commit_payload tries u = do
    n ← count_installers
    lost ← commit_first n
    if lost then fail_commit tries u (new_transient_error other) else do
      let u' = record u { has_db_schema_update = false }
      e ← store_commit u'
      committed tries u' e

  abbrev pub reported : Sent → M Outcome
  reported r = elim r.send_error [
    | none ↦ commit_payload r.tries r.update
    | some e ↦
        if e.fatal
        then fail_commit r.tries r.update e
        else go (State.held (commit r.tries r.update))
            (State.pre_commit_retry (commit r.tries r.update) r.tries)
  ]

  unfoldable pub handle_update_commit : ℕ → UpdateInfo → M Outcome
  unfolding send_deployment_status commit_first store_commit roll_back_or_fail
      handle_state_data_error
  handle_update_commit tries u = do
    enable_log env u.id
    unsupported ← try env check_scripts
    if unsupported then fail_commit tries u (new_transient_error other) else do
      try env clear_authorization
      r ← send_deployment_status env u status_installing tries
      reported r

  abbrev report_attempts : ℕ
  report_attempts = suc (
      max_sending_attempts env.update_poll_interval env.retry_poll_interval min_report_send_retries)

  abbrev give_up : Held → ℕ → M Outcome
  give_up h tries = do
    next ← roll_back_or_fail env (held_update h) (new_transient_error other)
    go (State.pre_commit_retry h tries) next

  unfoldable pub handle_pre_commit_retry : Held → ℕ → M Outcome
  unfolding max_sending_attempts wait_for roll_back_or_fail
  handle_pre_commit_retry h tries =
      if ltb tries report_attempts
      then wait_for env (State.pre_commit_retry h tries) (State.held h)
          (State.pre_commit_retry h tries) env.retry_poll_interval
      else give_up h tries

  -- Commits all payloads but the first, whichever of them fail.
  unfoldable pub commit_rest : ℕ → M Bool
  unfolding run_all
  commit_rest zero = pure false
  commit_rest (suc n) = run_all env Op.commit_update 1 n false

  abbrev fail_after_commit : UpdateInfo → M Outcome
  fail_after_commit u = do
    next ← broken env u (new_update_cleanup u status_failure)
    go (State.update_after_first_commit u) next

  unfoldable pub handle_update_after_first_commit : UpdateInfo → M Outcome
  unfolding commit_rest broken
  handle_update_after_first_commit u = do
    n ← count_installers
    lost ← commit_rest n
    if lost
        then fail_after_commit u
        else go (State.update_after_first_commit u) (State.update_after_commit u)

  abbrev pub handle_update_after_commit : UpdateInfo → M Outcome
  handle_update_after_commit u =
      go (State.update_after_commit u) (new_update_cleanup u status_success)
