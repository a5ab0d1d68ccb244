-- ===== src/Agent/Handle/Download.antt =====
-- app/state.go: the states that download an update and store its payloads.
use ota_pulse.Prelude.{
  ℕ, suc, String, Bool, true, false, not, Option, none, some, List, [], if◌then◌else◌, lookup,
  delete,
}
use ota_pulse.Errors.{Err, other, max_retries_exceeded, new_transient_error}
use ota_pulse.Datastore.StateName.{MenderState}
use ota_pulse.Datastore.UpdateInfo.{UpdateInfo}
use ota_pulse.Datastore.Artifact.{load_provides}
use ota_pulse.Agent.Backoff.{get_exponential_backoff_time}
use ota_pulse.Agent.State.{
  State, install, new_update_cleanup, new_status_report, status_failure, status_downloading,
}
use ota_pulse.Agent.Env.{
  Env, Op, ArtifactHeaders, Depend, installer, fetch_update, read_artifact_headers,
  verification_keys, read_store, current_artifact_name,
}
use ota_pulse.Agent.Machine.{
  M, ◌>>=◌, ◌>>◌, pure, gets, modify, ask, go, Outcome, try, enable_log, store_state_of, wait_for,
}
use ota_pulse.Agent.Report.{report_update_status, is_fatal}
use ota_pulse.Agent.HandleError.{handle_state_data_error}
use ota_pulse.Agent.Depends.{
  verify_artifact_dependencies, set_artifact_name_in_provides, verify_response_and_header,
}
use ota_pulse.Agent.Handle.Payloads.{count_installers, query_rollback_support}

module _ (env : Env) where
  unfoldable pub handle_update_fetch : UpdateInfo → M Outcome
  unfolding report_update_status
  handle_update_fetch u = do
    unlogged ← enable_log env u.id
    if unlogged then go (State.update_fetch u) (new_status_report u status_failure) else do
      e ← report_update_status env u status_downloading
      if is_fatal e then go (State.update_fetch u) (new_status_report u status_failure) else do
        lost ← try env (fetch_update u.artifact.source_uri)
        go (State.update_fetch u) (if lost then State.fetch_store_retry u else State.update_store u)

  -- Whether the artifact's dependencies hold: true is "no error".
  abbrev pub check_provides : List (String × Depend) → Option (List (String × String)) → M Bool
  check_provides depends none = pure false
  check_provides depends (some provides) = elim (lookup "artifact_name" provides) [
    | some _ ↦ pure (verify_artifact_dependencies depends provides)
    | none ↦ do
      name ← ask current_artifact_name env.text_answer
      pure (elim (set_artifact_name_in_provides provides name) [
        | none ↦ false
        | some provides' ↦ verify_artifact_dependencies depends provides'
      ])
  ]

  unfoldable pub check_depends : Option (List (String × Depend)) → M Bool
  unfolding load_provides set_artifact_name_in_provides verify_artifact_dependencies
  check_depends none = pure true
  check_depends (some depends) = do
    f ← ask read_store env.txn_faults
    db ← gets (λ s. s.db)
    check_provides depends (load_provides f db)

  -- The provides of the header move into the update. Without a name there, the update stays as it
  -- is, and the function returns the nil error of the call before.
  abbrev take_provides : ArtifactHeaders → UpdateInfo → UpdateInfo
  take_provides h u = elim h.provides [
    | none ↦ record u {
      artifact = record u.artifact { clears_artifact_provides = h.clears_provides };
    }
    | some provides ↦ elim (lookup "artifact_name" provides) [
      | none ↦ u
      | some _ ↦
          let unnamed = delete "artifact_name" provides in
          record u {
            artifact = record u.artifact {
              artifact_group = elim (lookup "artifact_group" unnamed) [
                | none ↦ u.artifact.artifact_group
                | some grp ↦ grp
              ];
              type_info_provides = delete "artifact_group" unnamed;
              clears_artifact_provides = h.clears_provides;
            };
          }
    ]
  ]

  -- `maybeVerifyArtifactDependsAndProvides`: `none` is an error.
  unfoldable pub verify_depends_and_provides : ArtifactHeaders → UpdateInfo → M (Option UpdateInfo)
  unfolding check_depends
  verify_depends_and_provides h u = do
    holds ← check_depends h.depends
    pure (if not holds then none else if h.provides_error then none else some (take_provides h u))

  abbrev fail_store : UpdateInfo → State → Err → M Outcome
  fail_store u next e = do
    (next', cancelled) ← handle_state_data_error env next false u e
    pure (record { self = State.update_store u; next = next'; cancelled = cancelled })

  abbrev finish_store : UpdateInfo → M Outcome
  finish_store u = do
    modify (λ s. record s { fetch_install_attempts = 0 })
    e ← report_update_status env u status_downloading
    elim e [
      | none ↦ go (State.update_store u) (State.update_after_store u)
      | some e' ↦
          go (State.update_store u)
            (if e'.fatal then State.update_error e' u else State.update_after_store u)
    ]

  -- `handleSupportsRollback`
  abbrev store_rollback_support : UpdateInfo → M Outcome
  store_rollback_support u = do
    n ← count_installers
    (support, known) ← query_rollback_support env 0 n u.supports_rollback
    let u' = record u { supports_rollback = support }
    if not known
        then go (State.update_store u') (State.update_error (new_transient_error other) u')
        else do
          e ← store_state_of env MenderState.update_store u' true
          elim e [
            | none ↦ finish_store u'
            | some e' ↦ fail_store u' (State.update_error (new_transient_error e') u') e'
          ]

  abbrev store_payloads : UpdateInfo → M Outcome
  store_payloads u = do
    lost ← try env (installer 0 Op.store_payload)
    if lost
        then go (State.update_store u) (new_update_cleanup u status_failure)
        else store_rollback_support u

  -- The state is stored before any payload is, so that the payload handlers are known to clean up.
  abbrev store_verified : UpdateInfo → M Outcome
  store_verified u = do
    e ← store_state_of env MenderState.update_store u true
    elim e [
      | none ↦ store_payloads u
      | some e' ↦ fail_store u (new_update_cleanup u status_failure) e'
    ]

  abbrev verify_headers : ArtifactHeaders → UpdateInfo → M Outcome
  verify_headers h u =
      if not (verify_response_and_header u.artifact.artifact_name u.artifact.compatible_devices h)
      then go (State.update_store u) (new_status_report u status_failure)
      else (verify_depends_and_provides h u >>= λ r. elim r [
        | none ↦ go (State.update_store u) (new_status_report u status_failure)
        | some u' ↦ store_verified u'
      ])

  abbrev with_headers : UpdateInfo → Option ArtifactHeaders → M Outcome
  with_headers u none = do
    modify (λ s. record s { installers = [] })
    go (State.update_store u) (new_update_cleanup u status_failure)
  with_headers u (some h) = do
    modify (λ s. record s { installers = h.payload_types })
    verify_headers h (record u { artifact = record u.artifact { payload_types = h.payload_types } })

  unfoldable pub handle_update_store : UpdateInfo → M Outcome
  unfolding report_update_status verify_response_and_header verify_depends_and_provides
      store_state_of query_rollback_support handle_state_data_error
  handle_update_store u = do
    unlogged ← enable_log env u.id
    if unlogged then go (State.update_store u) (new_status_report u status_failure) else do
      e ← report_update_status env u status_downloading
      if is_fatal e then go (State.update_store u) (new_status_report u status_failure) else do
        lost ← try env verification_keys
        if lost
            then go (State.update_store u) (new_update_cleanup u status_failure)
            else do h ← ask read_artifact_headers env.headers; with_headers u h

  abbrev pub handle_update_after_store : UpdateInfo → M Outcome
  handle_update_after_store u =
      go (State.update_after_store u) (State.fetch_control_map (install u) none)

  abbrev retry_fetch : UpdateInfo → Option ℕ → M Outcome
  retry_fetch u none =
      go (State.fetch_store_retry u)
        (State.update_error (new_transient_error max_retries_exceeded) u)
  retry_fetch u (some interval) = do
    modify (λ s. record s { fetch_install_attempts = suc s.fetch_install_attempts })
    wait_for env (State.fetch_store_retry u) (State.update_fetch u) (State.fetch_store_retry u)
        interval

  unfoldable pub handle_fetch_store_retry : UpdateInfo → M Outcome
  unfolding wait_for get_exponential_backoff_time
  handle_fetch_store_retry u = do
    tried ← gets (λ s. s.fetch_install_attempts)
    retry_fetch u (get_exponential_backoff_time tried env.update_poll_interval env.retry_poll_count)
