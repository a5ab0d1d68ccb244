-- ===== src/Tests/CommandLine.antt =====
-- An artifact that is handled from the command line, and the theorems at this artifact.
use ota_pulse.Prelude.{arith, insert, ◌≡◌, refl, true, false, none, some, [], ◌∷◌, lookup}
use ota_pulse.Datastore.Db.{
  StandaloneStateData, standalone_entry, text_entry, artifact_name_key, standalone_state_key,
}
use ota_pulse.Datastore.UpdateInfo.{set_supports_rollback}
use ota_pulse.Agent.Handle.Payloads.{query_rollback_support}
use ota_pulse.Agent.State.{State}
use ota_pulse.Agent.Machine.{Machine, ◌>>=◌, ask, gets, pure}
use ota_pulse.Agent.Standalone.Committed.{IsCommitted, do_standalone_commit-stores_name}
use ota_pulse.Agent.Env.{Env, ArtifactHeaders}
use ota_pulse.Agent.Step.PastCommit.{rollbacks}
use ota_pulse.Agent.Standalone.Restore.{Site, Found, do_standalone_commit, do_standalone_rollback}
use ota_pulse.Agent.Standalone.Installed.{Reads, do_standalone_install-commits}
use ota_pulse.Agent.Standalone.Install.{do_standalone_install}
use ota_pulse.Agent.Standalone.Supported.{HasNoSupport}
use ota_pulse.Agent.Standalone.Supported.Runs.{standalone-no_support}
use ota_pulse.Tests.Setup.{calm, device_in}

abbrev release_2 : ArtifactHeaders
release_2 = record {
  artifact_name = "release-2";
  compatible_devices = "board" ∷ [];
  payload_types = "single-file" ∷ [];
  depends = none;
  provides_error = false;
  provides = none;
  clears_provides = none;
}

-- Every payload can be installed, and none can be rolled back.
abbrev one_way : Env
one_way = record calm { headers = λ calls. some release_2; rollback_support = λ calls. some false }

abbrev board : Site
board = record {
  has_dual_rootfs = true;
  inactive = λ calls. some "/dev/sda3";
  file_at = λ calls. Found.executable;
}

one_way-HasNoSupport : HasNoSupport one_way
one_way-HasNoSupport calls e = cc

standalone-no_support_example :
    (rollbacks
        (do_standalone_install one_way board "release.art" false (device_in State.idle [])).1.trace
      ≡ rollbacks [])
    × (rollbacks (do_standalone_commit one_way board (device_in State.idle [])).1.trace
        ≡ rollbacks [])
    × (rollbacks (do_standalone_rollback one_way board (device_in State.idle [])).1.trace
        ≡ rollbacks [])
standalone-no_support_example =
    standalone-no_support one_way board "release.art" false (device_in State.idle [])
      one_way-HasNoSupport

abbrev waiting : StandaloneStateData
waiting = record {
  version = 1;
  artifact_name = "release-2";
  artifact_group = "";
  artifact_type_info_provides = none;
  artifact_clears_provides = none;
  payload_types = "single-file" ∷ [];
}

abbrev before_commit : Machine
before_commit = device_in State.idle (
    (standalone_state_key, standalone_entry waiting)
    ∷ ((artifact_name_key, text_entry "release-1") ∷ []))

do_standalone_commit-stores_name_example :
    IsCommitted "release-2" (do_standalone_commit one_way board before_commit).1.db
unfolding lookup do_standalone_commit ◌>>=◌ ask gets pure
do_standalone_commit-stores_name_example =
    do_standalone_commit-stores_name one_way board before_commit waiting refl refl refl

one_way-Reads : Reads one_way release_2
one_way-Reads calls h e = ground arith

do_standalone_install-commits_example :
    IsCommitted "release-2"
      (do_standalone_install one_way board "release.art" false (device_in State.idle [])).1.db
unfolding do_standalone_install ◌>>=◌ ask pure query_rollback_support set_supports_rollback lookup
    gets insert
do_standalone_install-commits_example =
    do_standalone_install-commits one_way board "release.art" false (device_in State.idle [])
      release_2 one_way-HasNoSupport one_way-Reads refl refl
