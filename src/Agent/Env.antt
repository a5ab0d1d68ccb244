-- ===== src/Agent/Env.antt =====
-- What the agent calls and does not decide: the network, the payload handlers, the state scripts,
-- the store's faults, time. `Env` answers a call from the calls made so far, latest first, the call
-- itself included, so that a theorem for every `Env` holds whatever these parts do.
use ota_pulse.Prelude.{ℕ, String, Bool, Option, List}
use ota_pulse.Errors.{Err}
use ota_pulse.Datastore.StateName.{MenderState}
use ota_pulse.Datastore.UpdateInfo.{UpdateInfo}
use ota_pulse.Datastore.Db.{TxnFaults}
use ota_pulse.ControlMap.Map.{UpdateControlMap}
use ota_pulse.ControlMap.Pool.{PoolEvent}

-- The operations of `PayloadUpdatePerformer`.
pub data Op : Type 0 where
  store_payload install_update commit_update reboot verify_reboot rollback : Op
  rollback_reboot verify_rollback_reboot failure cleanup needs_reboot supports_rollback : Op

-- `scripts` is `ExecuteAll`, with the status that it reports, if any.
pub data Call : Type 0 where
  report_status : String → String → Call
  upload_log get_logs : String → Call
  get_scheduled_update inventory_refresh check_scripts clear_authorization : Call
  fetch_update : String → Call
  read_artifact_headers : Call
  get_control_map : String → Call
  installer : ℕ → Op → Call
  restore_installers : List String → Call
  scripts : String → String → Bool → Option String → Call
  enable_logger : String → Call
  disable_logger reboot_host : Call
  load_state remove_state read_store save_maps pool_access current_artifact_name : Call
  store_state : MenderState → UpdateInfo → Bool → Call
  write_artifact_name : String → Call
  wait : ℕ → Call
  now : Call
  get_device_type verification_keys new_api_client get_artifact_depends store_payloads : Call
  standalone_transaction store_standalone read_standalone dual_rootfs_verify_reboot : Call
  find_inactive make_probe_dir probe_mount probe_unmount manifest_data : Call
  fetch_file lstat : String → Call

-- `NeedsReboot` of a payload; `other` is a number that is none of the three.
pub data RebootAction : Type 0 where
  no_reboot reboot_required automatic_reboot other : RebootAction

-- A dependency of an artifact, as encoding/json decodes it. Of a list of arbitrary values an
-- element that is no text is `none`.
pub data Depend : Type 0 where
  any_list : List (Option String) → Depend
  text_list : List String → Depend
  text : String → Depend
  other : Depend

-- What `ReadArtifactHeaders` returns: the headers, with a handler for each payload. A nil map is
-- `none`, and so is the error of `GetArtifactDepends`, which is only logged.
pub record ArtifactHeaders : Type 0 where
  pub artifact_name : String
  pub compatible_devices : List String
  pub payload_types : List String
  pub depends : Option (List (String × Depend))
  pub provides_error : Bool
  pub provides : Option (List (String × String))
  pub clears_provides : Option (List String)

-- An update that the server offers, an error, or both.
pub record CheckResult : Type 0 where
  pub update : Option UpdateInfo
  pub check_error : Option Err

pub data WaitResult : Type 0 where
  timer woken cancelled : WaitResult

-- A Boolean answer of true is a failure. `wildcards` is `utils.StringsMatchingWildcards` of
-- mender-artifact, `sort_maps` the call of sort.Slice that puts the highest priority first.
pub record Env : Type 0 where
  pub api_error : List Call → Option Err
  pub call_fails : List Call → Bool
  pub check_update : List Call → CheckResult
  pub headers : List Call → Option ArtifactHeaders
  pub control_map : List Call → Option UpdateControlMap
  pub reboot_action : List Call → Option RebootAction
  pub rollback_support : List Call → Option Bool
  pub text_answer : List Call → Option String
  pub txn_faults : List Call → TxnFaults
  pub time : List Call → ℕ
  pub wait_result : List Call → WaitResult
  pub pool_events : List Call → List PoolEvent
  pub wildcards : List String → List String → Option (List String)
  pub sort_maps : List UpdateControlMap → List UpdateControlMap
  pub update_poll_interval : ℕ
  pub inventory_poll_interval : ℕ
  pub retry_poll_interval : ℕ
  pub retry_poll_count : ℕ
  pub control_map_timeout : ℕ
