-- ===== src/Agent/Standalone/Supported/Runs.antt =====
-- app/standalone.go: the three commands, where no payload supports a rollback.
use ota_pulse.Prelude.{
  ℕ, zero, suc, ◌≡◌, refl, String, Bool, true, false, Option, none, some, List, arith, length,
  lookup,
}
use ota_pulse.Agent.Env.{
  Env, Op, RebootAction, Depend, ArtifactHeaders, installer, scripts, get_device_type,
  verification_keys, new_api_client, get_artifact_depends, read_artifact_headers, store_payloads,
  fetch_update, fetch_file, read_store, current_artifact_name,
}
use ota_pulse.Agent.Machine.{Machine, ◌>>=◌, pure, ask}
use ota_pulse.Datastore.Artifact.{load_provides}
use ota_pulse.Agent.Depends.{verify_artifact_dependencies, set_artifact_name_in_provides}
use ota_pulse.Agent.Handle.Download.{check_depends, check_provides}
use ota_pulse.Agent.Step.PastCommit.{
  rollbacks, IsQuiet, Any, pure-IsQuiet, gets-IsQuiet, bind-IsQuiet, then-IsQuiet, ask-IsQuiet,
  if-IsQuiet, weaken-IsQuiet,
}
use ota_pulse.Agent.Standalone.States.{StandaloneData, Fault, determine_reboot_needed}
use ota_pulse.Agent.Standalone.Restore.{
  Site, store_standalone_data, do_standalone_commit, do_standalone_rollback,
}
use ota_pulse.Agent.Standalone.Install.{
  empty_data, data_of, is_remote, Downloaded, fail_download, leave_download, with_headers,
  install_states_download, committed, stored, fail_late, with_reboot, install_supported,
  install_downloaded, install_states, do_standalone_install,
}
use ota_pulse.Agent.Standalone.Supported.{
  HasNoSupport, IsUnsupported, determine_rollback_support-IsQuiet, call_error_script-IsQuiet,
  run_until_error-IsQuiet, failure_states-IsQuiet, fail_in-IsQuiet,
}
use ota_pulse.Agent.Standalone.Supported.Restores.{then_call, commit-IsQuiet, rollback-IsQuiet}

module _ (env : Env) (site : Site) (no_support : HasNoSupport env) where
  check_provides-IsQuiet :
      (depends : List (String × Depend)) (o : Option (List (String × String)))
      → IsQuiet Any (check_provides env depends o)
  check_provides-IsQuiet depends none = pure-IsQuiet _ tt
  check_provides-IsQuiet depends (some provides) = named (lookup "artifact_name" provides)
    where
      named :
          (o : Option String)
          → IsQuiet Any (elim o [
            | some _ ↦ pure (verify_artifact_dependencies depends provides)
            | none ↦ ask current_artifact_name env.text_answer >>= λ name.
                pure (elim (set_artifact_name_in_provides provides name) [
                  | none ↦ false
                  | some provides' ↦ verify_artifact_dependencies depends provides'
                ])
          ])
      named none =
          bind-IsQuiet Any (ask-IsQuiet current_artifact_name env.text_answer refl)
            (λ name _. pure-IsQuiet _ tt)
      named (some name) = pure-IsQuiet _ tt

  check_depends-IsQuiet : (o : Option (List (String × Depend))) → IsQuiet Any (check_depends env o)
  unfolding check_depends
  check_depends-IsQuiet none = pure-IsQuiet _ tt
  check_depends-IsQuiet (some depends) =
      bind-IsQuiet Any (ask-IsQuiet read_store env.txn_faults refl) (λ f _.
        bind-IsQuiet Any (gets-IsQuiet (λ s. s.db))
          (λ db _. check_provides-IsQuiet depends (load_provides f db)))

  fail_download-IsQuiet : (sd : StandaloneData) → IsQuiet Any (fail_download env site sd)
  fail_download-IsQuiet sd =
      then-IsQuiet (fail_in-IsQuiet env no_support "Download" sd false) (pure-IsQuiet _ tt)

  leave_download-IsQuiet : (sd : StandaloneData) → IsQuiet Any (leave_download env site sd)
  leave_download-IsQuiet sd = then_call env site no_support store_payloads refl (λ lost.
      if-IsQuiet lost (fail_download-IsQuiet sd) (
        then_call env site no_support (scripts "Download" "Leave" false none) refl
          (λ e. if-IsQuiet e (fail_download-IsQuiet sd) (pure-IsQuiet _ tt))))

  with_headers-IsQuiet : (o : Option ArtifactHeaders) → IsQuiet Any (with_headers env site o)
  with_headers-IsQuiet none = fail_download-IsQuiet empty_data
  with_headers-IsQuiet (some h) = if-IsQuiet h.provides_error (pure-IsQuiet _ tt) (
      then_call env site no_support get_artifact_depends refl (λ unknown.
        if-IsQuiet unknown (pure-IsQuiet _ tt) (
          bind-IsQuiet Any (check_depends-IsQuiet h.depends)
            (λ fits _. if-IsQuiet fits (leave_download-IsQuiet (data_of h)) (pure-IsQuiet _ tt)))))

  download-IsQuiet : IsQuiet Any (install_states_download env site)
  unfolding install_states_download
  download-IsQuiet = then_call env site no_support get_device_type refl (λ unknown.
      if-IsQuiet unknown (pure-IsQuiet _ tt) (
        then_call env site no_support (scripts "Download" "Enter" false none) refl (λ e.
          if-IsQuiet e
            (then-IsQuiet (call_error_script-IsQuiet env no_support "Download") (pure-IsQuiet _ tt))
            (then_call env site no_support verification_keys refl (λ lost.
              if-IsQuiet lost (fail_download-IsQuiet empty_data) (
                bind-IsQuiet Any (ask-IsQuiet read_artifact_headers env.headers refl)
                  (λ o _. with_headers-IsQuiet o)))))))

  determine_reboot_needed-IsQuiet : (n rest : ℕ) → IsQuiet Any (determine_reboot_needed env n rest)
  unfolding determine_reboot_needed
  determine_reboot_needed-IsQuiet n zero = pure-IsQuiet _ tt
  determine_reboot_needed-IsQuiet n (suc rest) =
      bind-IsQuiet Any (ask-IsQuiet (installer n Op.needs_reboot) env.reboot_action refl)
        (λ o _. answered (determine_reboot_needed-IsQuiet (suc n) rest) o)
    where
      answered :
          IsQuiet Any (determine_reboot_needed env (suc n) rest)
          → (o : Option RebootAction)
          → IsQuiet {A = Option Bool} Any (elim o [
            | none ↦ pure none
            | some RebootAction.no_reboot ↦ determine_reboot_needed env (suc n) rest
            | some _ ↦ pure (some true)
          ])
      answered later none = pure-IsQuiet _ tt
      answered later (some RebootAction.no_reboot) = later
      answered later (some RebootAction.reboot_required) = pure-IsQuiet _ tt
      answered later (some RebootAction.automatic_reboot) = pure-IsQuiet _ tt
      answered later (some RebootAction.other) = pure-IsQuiet _ tt

  store_standalone_data-IsQuiet :
      (sd : StandaloneData) → IsQuiet Any (store_standalone_data env site sd)
  unfolding store_standalone_data rollbacks
  store_standalone_data-IsQuiet sd = record { run_quiet = λ s. (tt, omega arith, refl) }

  committed-IsQuiet :
      (needed exit_code : Bool) (f : Option Fault)
      → IsQuiet Any (committed env site needed exit_code f)
  committed-IsQuiet needed exit_code none = pure-IsQuiet _ tt
  committed-IsQuiet needed exit_code (some f) = pure-IsQuiet _ tt

  stored-IsQuiet :
      (support needed exit_code : Bool) → IsQuiet Any (stored env site support needed exit_code)
  stored-IsQuiet true needed exit_code = pure-IsQuiet _ tt
  stored-IsQuiet false needed exit_code =
      bind-IsQuiet Any (commit-IsQuiet env site no_support)
        (λ f _. committed-IsQuiet needed exit_code f)

  fail_late-IsQuiet : (sd : StandaloneData) (late : Bool) → IsQuiet Any (fail_late env site sd late)
  fail_late-IsQuiet sd late =
      then-IsQuiet (failure_states-IsQuiet env no_support sd late late true) (pure-IsQuiet _ tt)

  with_reboot-IsQuiet :
      (exit_code support : Bool) (sd : StandaloneData) (o : Option Bool)
      → IsQuiet Any (with_reboot env site exit_code support sd o)
  with_reboot-IsQuiet exit_code support sd none = fail_late-IsQuiet sd true
  with_reboot-IsQuiet exit_code support sd (some needed) =
      bind-IsQuiet Any (store_standalone_data-IsQuiet sd)
        (λ lost _. if-IsQuiet lost (pure-IsQuiet _ tt) (stored-IsQuiet support needed exit_code))

  install_supported-IsQuiet :
      (exit_code : Bool) (sd : StandaloneData) (o : Option Bool)
      → IsQuiet Any (install_supported env site exit_code sd o)
  install_supported-IsQuiet exit_code sd none = fail_late-IsQuiet sd false
  install_supported-IsQuiet exit_code sd (some support) =
      let fails = fail_in-IsQuiet env no_support "ArtifactInstall" sd true in
      then_call env site no_support (scripts "ArtifactInstall" "Enter" false none) refl (λ e.
        if-IsQuiet e fails (
          bind-IsQuiet Any
            (run_until_error-IsQuiet env no_support Op.install_update 0 (length sd.installers)
              (λ _. refl))
            (λ e' _. if-IsQuiet e' fails (
              then_call env site no_support (scripts "ArtifactInstall" "Leave" false none) refl
                (λ e''. if-IsQuiet e'' fails (
                  bind-IsQuiet Any (determine_reboot_needed-IsQuiet 0 (length sd.installers))
                    (λ o _. with_reboot-IsQuiet exit_code support sd o)))))))

  install_downloaded-IsQuiet :
      (exit_code : Bool) (o : Downloaded) → IsQuiet Any (install_downloaded env site exit_code o)
  install_downloaded-IsQuiet exit_code none = pure-IsQuiet _ tt
  install_downloaded-IsQuiet exit_code (some sd) =
      bind-IsQuiet Any
        (weaken-IsQuiet IsUnsupported
          (determine_rollback_support-IsQuiet env no_support sd.installers) (λ o u. tt))
        (λ o _. install_supported-IsQuiet exit_code sd o)

  install-IsQuiet :
      (uri : String) (exit_code : Bool) → IsQuiet Any (do_standalone_install env site uri exit_code)
  unfolding do_standalone_install install_states
  install-IsQuiet uri exit_code =
      let states =
        bind-IsQuiet Any download-IsQuiet (λ o _. install_downloaded-IsQuiet exit_code o) in
      if-IsQuiet (is_remote uri)
        (then_call env site no_support new_api_client refl (λ no_client.
          if-IsQuiet no_client (pure-IsQuiet _ tt) (
            then_call env site no_support (fetch_update uri) refl
              (λ lost. if-IsQuiet lost (pure-IsQuiet _ tt) states))))
        (then_call env site no_support (fetch_file uri) refl
          (λ lost. if-IsQuiet lost (pure-IsQuiet _ tt) states))

-- Whatever fails, the installation, the commit and the rollback of an artifact from the command line
-- roll nothing back, if no payload says that it supports a rollback.
pub standalone-no_support :
    (env : Env) (site : Site) (uri : String) (exit_code : Bool) (s : Machine)
    → HasNoSupport env
    → (rollbacks (do_standalone_install env site uri exit_code s).1.trace ≡ rollbacks s.trace)
      × (rollbacks (do_standalone_commit env site s).1.trace ≡ rollbacks s.trace)
      × (rollbacks (do_standalone_rollback env site s).1.trace ≡ rollbacks s.trace)
standalone-no_support env site uri exit_code s no_support =
    let installed = install-IsQuiet env site no_support uri exit_code in
    let committed' = commit-IsQuiet env site no_support in
    let rolled = rollback-IsQuiet env site no_support in
    ((installed.run_quiet s).1, (committed'.run_quiet s).1, (rolled.run_quiet s).1)
