-- ===== src/Tests/Setup.antt =====
-- A device on which an update is being committed, and what surrounds it.
use ota_pulse.Prelude.{true, false, none, some, [], ◌∷◌, keep, contains}
use ota_pulse.Datastore.StateName.{MenderState}
use ota_pulse.Datastore.UpdateInfo.{UpdateInfo, empty_update, rollback_supported}
use ota_pulse.Datastore.Db.{StateData, Db, TxnFaults, no_faults}
use ota_pulse.Agent.State.{State, commit}
use ota_pulse.Agent.Env.{Env, WaitResult, no_reboot}
use ota_pulse.Agent.Machine.{Machine}

-- Every call succeeds, nothing is to do, and time stands still; a pattern matches itself only.
abbrev pub calm : Env
calm = record {
  api_error = λ _. none;
  call_fails = λ _. false;
  check_update = λ _. record { update = none; check_error = none };
  headers = λ _. none;
  control_map = λ _. none;
  reboot_action = λ _. some no_reboot;
  rollback_support = λ _. some true;
  text_answer = λ _. some "release-1";
  txn_faults = λ _. no_faults;
  time = λ _. 0;
  wait_result = λ _. WaitResult.timer;
  pool_events = λ _. [];
  wildcards = λ names patterns. some (keep (contains patterns) names);
  sort_maps = λ maps. maps;
  update_poll_interval = 1_800_000_000_000;
  inventory_poll_interval = 28_800_000_000_000;
  retry_poll_interval = 300_000_000_000;
  retry_poll_count = 0;
  control_map_timeout = 60;
}

abbrev pub offline : TxnFaults
offline = record { open_fails = true; read_fails = false; write_fails = false }

abbrev pub storeless : Env
storeless = record calm { txn_faults = λ _. offline }

abbrev pub release : UpdateInfo
release = record (empty_update "deployment-1") {
  supports_rollback = rollback_supported;
  artifact = record (empty_update "").artifact {
    artifact_name = "release-2";
    payload_types = "rootfs-image" ∷ [];
  };
}

abbrev pub device_in : State → Db → Machine
device_in s db = record {
  trace = [];
  db = db;
  pool = record { maps = []; saved = none; announced = false };
  current = s;
  installers = "rootfs-image" ∷ [];
  last_update_check_attempt = 0;
  last_inventory_update_attempt = 0;
  fetch_install_attempts = 0;
  control_map_fetch_attempts = 0;
  inventory_update_attempts = 0;
  next_attempt_at = 0;
  pause_reported = [];
}

abbrev pub committing : Machine
committing = device_in (State.held (commit 0 release)) []

abbrev pub first_commit : State
first_commit = State.update_after_first_commit release

abbrev pub data_in : MenderState → StateData
data_in name = record { version = 2; name = name; update_info = release }
