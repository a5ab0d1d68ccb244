-- ===== src/Agent/Standalone/Restore.antt =====
-- app/standalone.go: an artifact that waits for its commit, from the store or, where there is none in
-- it, from the two root file systems; its commit and its rollback.
use ota_pulse.Prelude.{
  ℕ, String, Bool, true, false, Option, none, some, List, [], ◌∷◌, ◌==◌, ◌=ₛ◌, if◌then◌else◌,
  lookup, insert,
}
use ota_pulse.Datastore.Db.{
  StandaloneStateData, standalone_entry, standalone_state_key, Read, missing, undecodable, found,
  read_standalone_data,
}
use ota_pulse.Agent.Env.{
  Env, Call, restore_installers, store_standalone, read_standalone, dual_rootfs_verify_reboot,
  find_inactive, make_probe_dir, probe_mount, probe_unmount, manifest_data, lstat,
}
use ota_pulse.Agent.Machine.{M, ◌>>=◌, ◌>>◌, pure, gets, ask, try}
use ota_pulse.Agent.Standalone.States.{
  StandaloneData, Fault, nothing_to_commit, failed, fault_if, determine_rollback_support,
  rollback_state, failure_states, with_old_name, cleanup, commit_states,
}

-- datastore/standalone_data.go
abbrev pub standalone_state_data_version : ℕ
standalone_state_data_version = 1

-- An empty list is left out by `omitempty`.
abbrev pub omit_empty : Option (List String) → Option (List String)
omit_empty (some []) = none
omit_empty clears = clears

abbrev pub stored_data : StandaloneData → StandaloneStateData
stored_data sd = record {
  version = standalone_state_data_version;
  artifact_name = sd.artifact_name;
  artifact_group = sd.artifact_group;
  artifact_type_info_provides = sd.artifact_type_info_provides;
  artifact_clears_provides = omit_empty sd.artifact_clears_provides;
  payload_types = sd.installers;
}

abbrev pub restored_data : StandaloneStateData → StandaloneData
restored_data d = record {
  artifact_name = d.artifact_name;
  artifact_group = d.artifact_group;
  artifact_type_info_provides = d.artifact_type_info_provides;
  artifact_clears_provides = d.artifact_clears_provides;
  installers = d.payload_types;
}

-- What `os.Lstat` finds at a path of the partition that is probed.
pub data Found : Type 0 where
  nothing executable symlink other_file : Found

-- Whether the device has two root file systems, the inactive one, and the files on it.
pub record Site : Type 0 where
  pub has_dual_rootfs : Bool
  pub inactive : List Call → Option String
  pub file_at : List Call → Found

abbrev pub shows_init : Found → Bool
shows_init Found.executable = true
shows_init Found.symlink = true
shows_init _ = false

abbrev pub Restored : Type 0
Restored = Option StandaloneData × Option Fault

abbrev pub no_data : Fault → Restored
no_data f = (none, some f)

module _ (env : Env) (site : Site) where
  -- `storeStandaloneData`: true is an error.
  unfoldable pub store_standalone_data : StandaloneData → M Bool
  store_standalone_data sd s =
      let calls = store_standalone ∷ s.trace in
      let db' = insert standalone_state_key (standalone_entry (stored_data sd)) s.db in
      let fails = env.call_fails calls in
      (fails, record s { trace = calls; db = if fails then s.db else db' })

  -- The loop over the places of an init.
  unfoldable pub find_init : List String → M Bool
  find_init [] = pure false
  find_init (path ∷ paths) = do
    there ← ask (lstat path) site.file_at
    let later = find_init paths
    if shows_init there then pure true else later

  -- The partition is unmounted at the end, which may fail.
  abbrev pub probe : M Bool
  probe = do
    lost ← try env make_probe_dir
    if lost then pure true else do
      unmountable ← try env probe_mount
      if unmountable then pure false else do
        b ← find_init ("sbin/init" ∷ "init" ∷ "bin/init" ∷ [])
        try env probe_unmount
        pure b

  abbrev pub probe_if : Option String → M Bool
  probe_if none = pure true
  probe_if (some partition) = if partition =ₛ "" then pure true else probe

  -- `inactivePartitionLooksBootable`
  unfoldable pub inactive_partition_looks_bootable : M Bool
  unfolding find_init
  inactive_partition_looks_bootable = do
    partition ← ask find_inactive site.inactive
    probe_if partition

  abbrev pub rootfs_data : String → StandaloneData
  rootfs_data name = record {
    artifact_name = name;
    artifact_group = "";
    artifact_type_info_provides = none;
    artifact_clears_provides = none;
    installers = "rootfs-image" ∷ [];
  }

  abbrev pub with_manifest : Option String → M Restored
  with_manifest none = pure (no_data failed)
  with_manifest (some name) = do
    lost ← try env (restore_installers ("rootfs-image" ∷ []))
    pure (if lost then no_data failed else (some (rootfs_data name), none))

  -- `handlePreDatabaseRestore`
  unfoldable pub handle_pre_database_restore : M Restored
  unfolding inactive_partition_looks_bootable
  handle_pre_database_restore =
      if site.has_dual_rootfs
      then (try env dual_rootfs_verify_reboot >>= λ no_update.
          if no_update then pure (no_data nothing_to_commit) else do
            bootable ← inactive_partition_looks_bootable
            if bootable
                then (ask manifest_data env.text_answer >>= with_manifest)
                else pure (no_data nothing_to_commit))
      else pure (no_data nothing_to_commit)

  abbrev pub decoded : Read StandaloneStateData → M Restored
  decoded missing = handle_pre_database_restore
  decoded undecodable = pure (no_data failed)
  decoded (found d) =
      if d.version == standalone_state_data_version
      then (try env (restore_installers d.payload_types) >>= λ lost.
          pure (if lost then no_data failed else (some (restored_data d), none)))
      else pure (no_data failed)

  -- `restoreStandaloneData`
  unfoldable pub restore_standalone_data : M Restored
  unfolding handle_pre_database_restore
  restore_standalone_data = do
    lost ← try env read_standalone
    db ← gets (λ s. s.db)
    if lost
        then pure (no_data failed)
        else decoded (read_standalone_data (lookup standalone_state_key db))

  abbrev pub commit_restored : Restored → M (Option Fault)
  commit_restored (none, f) = pure f
  commit_restored (some sd, f) = commit_states env sd

  -- `DoStandaloneCommit`
  unfoldable pub do_standalone_commit : M (Option Fault)
  unfolding restore_standalone_data commit_states
  do_standalone_commit = do r ← restore_standalone_data; commit_restored r

  abbrev pub after_rollback : StandaloneData → Bool → M (Option Fault)
  after_rollback sd false = do e ← cleanup env (with_old_name sd); pure (fault_if e)
  after_rollback sd true = do
    r ← failure_states env sd false true false
    cleanup env r.1
    pure (some failed)

  abbrev pub roll_back_supported : StandaloneData → Option Bool → M (Option Fault)
  roll_back_supported sd none = pure (some failed)
  roll_back_supported sd (some false) = pure (some failed)
  roll_back_supported sd (some true) = do e ← rollback_state env sd; after_rollback sd e

  abbrev pub roll_back_restored : Restored → M (Option Fault)
  roll_back_restored (none, f) = pure f
  roll_back_restored (some sd, f) = do
    support ← determine_rollback_support env sd.installers
    roll_back_supported sd support

  -- `DoStandaloneRollback`
  unfoldable pub do_standalone_rollback : M (Option Fault)
  unfolding restore_standalone_data determine_rollback_support rollback_state failure_states cleanup
  do_standalone_rollback = do r ← restore_standalone_data; roll_back_restored r
