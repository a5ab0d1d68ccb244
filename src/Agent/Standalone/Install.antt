-- ===== src/Agent/Standalone/Install.antt =====
-- app/standalone.go: the installation of an artifact from the command line.
use ota_pulse.Prelude.{
  String, Bool, true, false, ◌&&◌, Option, none, some, [], if◌then◌else◌, length, lookup, delete,
}
use ota_pulse.Agent.Env.{
  Env, Op, ArtifactHeaders, get_device_type, verification_keys, new_api_client,
  get_artifact_depends, read_artifact_headers, store_payloads, fetch_update, fetch_file,
}
use ota_pulse.Agent.Machine.{M, ◌>>=◌, ◌>>◌, pure, ask, try}
use ota_pulse.Agent.Handle.Download.{check_depends}
use ota_pulse.Agent.Handle.Payloads.{run_until_error}
use ota_pulse.Client.Resumer.{after_prefix}
use ota_pulse.Agent.Standalone.States.{
  StandaloneData, Fault, manual_reboot_required, failed, execute_all, call_error_script, fail_in,
  failure_states, determine_rollback_support, determine_reboot_needed,
}
use ota_pulse.Agent.Standalone.Restore.{Site, store_standalone_data, do_standalone_commit}

abbrev pub Downloaded : Type 0
Downloaded = Option StandaloneData

-- Before the headers are read.
abbrev pub empty_data : StandaloneData
empty_data = record {
  artifact_name = "";
  artifact_group = "";
  artifact_type_info_provides = none;
  artifact_clears_provides = none;
  installers = [];
}

abbrev pub group_of : Option String → String
group_of none = ""
group_of (some group) = group

-- The name and the group are no type-info provides.
abbrev pub data_of : ArtifactHeaders → StandaloneData
data_of h = elim h.provides [
  | none ↦ record {
    artifact_name = h.artifact_name;
    artifact_group = "";
    artifact_type_info_provides = none;
    artifact_clears_provides = h.clears_provides;
    installers = h.payload_types;
  }
  | some p ↦ record {
    artifact_name = h.artifact_name;
    artifact_group = group_of (lookup "artifact_group" (delete "artifact_name" p));
    artifact_type_info_provides = some (delete "artifact_group" (delete "artifact_name" p));
    artifact_clears_provides = h.clears_provides;
    installers = h.payload_types;
  }
]

abbrev pub is_remote : String → Bool
is_remote uri = elim (after_prefix "http:" uri) [
  | some _ ↦ true
  | none ↦ elim (after_prefix "https:" uri) [ some _ ↦ true | none ↦ false ]
]

module _ (env : Env) (site : Site) where
  -- A failure of the download: the error is returned, so there are no data.
  abbrev pub fail_download : StandaloneData → M Downloaded
  fail_download sd = do fail_in env "Download" sd false; pure none

  abbrev pub leave_download : StandaloneData → M Downloaded
  leave_download sd = do
    lost ← try env store_payloads
    if lost then fail_download sd else do
      e ← execute_all env "Download" "Leave" false
      if e then fail_download sd else pure (some sd)

  abbrev pub with_headers : Option ArtifactHeaders → M Downloaded
  with_headers none = fail_download empty_data
  with_headers (some h) =
      if h.provides_error
      then pure none
      else (try env get_artifact_depends >>= λ unknown. if unknown then pure none else do
        fits ← check_depends env h.depends
        if fits then leave_download (data_of h) else pure none)

  -- `doStandaloneInstallStatesDownload`; its errors are all alike.
  unfoldable pub install_states_download : M Downloaded
  unfolding fail_in check_depends
  install_states_download = do
    unknown ← try env get_device_type
    if unknown then pure none else do
      e ← execute_all env "Download" "Enter" false
      if e then (call_error_script env "Download" >> pure none) else do
        lost ← try env verification_keys
        if lost
            then fail_download empty_data
            else do h ← ask read_artifact_headers env.headers; with_headers h

  abbrev pub exit_of : Bool → Bool → Option Fault
  exit_of needed exit_code = if needed && exit_code then some manual_reboot_required else none

  abbrev pub committed : Bool → Bool → Option Fault → M (Option Fault)
  committed needed exit_code none = pure (exit_of needed exit_code)
  committed needed exit_code (some f) = pure (some f)

  abbrev pub stored : Bool → Bool → Bool → M (Option Fault)
  stored true needed exit_code = pure (exit_of needed exit_code)
  stored false needed exit_code = do f ← do_standalone_commit env site; committed needed exit_code f

  -- A failure once the installation has begun, in a place without error scripts.
  abbrev pub fail_late : StandaloneData → Bool → M (Option Fault)
  fail_late sd late = do failure_states env sd late late true; pure (some failed)

  abbrev pub with_reboot : Bool → Bool → StandaloneData → Option Bool → M (Option Fault)
  with_reboot exit_code support sd none = fail_late sd true
  with_reboot exit_code support sd (some needed) = do
    lost ← store_standalone_data env site sd
    if lost then pure (some failed) else stored support needed exit_code

  abbrev pub install_supported : Bool → StandaloneData → Option Bool → M (Option Fault)
  install_supported exit_code sd none = fail_late sd false
  install_supported exit_code sd (some support) = do
    e ← execute_all env "ArtifactInstall" "Enter" false
    if e then fail_in env "ArtifactInstall" sd true else do
      e' ← run_until_error env Op.install_update 0 (length sd.installers)
      if e' then fail_in env "ArtifactInstall" sd true else do
        e'' ← execute_all env "ArtifactInstall" "Leave" false
        if e'' then fail_in env "ArtifactInstall" sd true else do
          needed ← determine_reboot_needed env 0 (length sd.installers)
          with_reboot exit_code support sd needed

  abbrev pub install_downloaded : Bool → Downloaded → M (Option Fault)
  install_downloaded exit_code none = pure (some failed)
  install_downloaded exit_code (some sd) = do
    support ← determine_rollback_support env sd.installers
    install_supported exit_code sd support

  -- `doStandaloneInstallStates`; with the flag a wish for a reboot is the exit code.
  unfoldable pub install_states : Bool → M (Option Fault)
  unfolding install_states_download do_standalone_commit determine_rollback_support
      determine_reboot_needed failure_states store_standalone_data run_until_error
  install_states exit_code = do sd ← install_states_download; install_downloaded exit_code sd

  -- `DoStandaloneInstall`
  unfoldable pub do_standalone_install : String → Bool → M (Option Fault)
  unfolding install_states after_prefix
  do_standalone_install uri exit_code =
      if is_remote uri
      then (try env new_api_client >>= λ no_client. if no_client then pure (some failed) else do
        lost ← try env (fetch_update uri)
        if lost then pure (some failed) else install_states exit_code)
      else (try env (fetch_file uri) >>= λ lost.
          if lost then pure (some failed) else install_states exit_code)
