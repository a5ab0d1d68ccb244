-- ===== src/Agent/Standalone/Supported/Restores.antt =====
-- app/standalone.go: the commit and the rollback, where no payload supports a rollback.
use ota_pulse.Prelude.{
  ◌≡◌, refl, String, Bool, true, false, Option, none, some, List, [], ◌∷◌, ◌==◌, ◌=ₛ◌, lookup,
}
use ota_pulse.Datastore.Db.{
  StandaloneStateData, Read, missing, undecodable, found, standalone_state_key,
  read_standalone_data,
}
use ota_pulse.Agent.Env.{
  Env, Call, restore_installers, read_standalone, dual_rootfs_verify_reboot, find_inactive,
  make_probe_dir, probe_mount, probe_unmount, manifest_data, lstat,
}
use ota_pulse.Agent.Machine.{M, ◌>>=◌, try}
use ota_pulse.Agent.Step.PastCommit.{
  is_rollback, IsQuiet, Any, pure-IsQuiet, gets-IsQuiet, bind-IsQuiet, then-IsQuiet, ask-IsQuiet,
  if-IsQuiet,
}
use ota_pulse.Agent.Standalone.States.{StandaloneData}
use ota_pulse.Agent.Standalone.Restore.{
  Site, Restored, find_init, probe, probe_if, inactive_partition_looks_bootable, with_manifest,
  handle_pre_database_restore, decoded, restore_standalone_data, commit_restored,
  do_standalone_commit, roll_back_supported, roll_back_restored, do_standalone_rollback, shows_init,
}
use ota_pulse.Agent.Standalone.Supported.{
  HasNoSupport, IsUnsupported, determine_rollback_support-IsQuiet, call_then, commit_states-IsQuiet,
}

module _ (env : Env) (site : Site) (no_support : HasNoSupport env) where
  pub then_call :
      {B : Type 0} {k : Bool → M B} (c : Call)
      → is_rollback c ≡ false
      → ((b : Bool) → IsQuiet Any (k b))
      → IsQuiet Any (try env c >>= k)
  then_call = call_then env no_support

  find_init-IsQuiet : (paths : List String) → IsQuiet Any (find_init env site paths)
  unfolding find_init
  find_init-IsQuiet [] = pure-IsQuiet _ tt
  find_init-IsQuiet (path ∷ paths) =
      let later = find_init-IsQuiet paths in
      bind-IsQuiet Any (ask-IsQuiet (lstat path) site.file_at refl)
        (λ there _. if-IsQuiet (shows_init there) (pure-IsQuiet _ tt) later)

  probe-IsQuiet : IsQuiet Any (probe env site)
  probe-IsQuiet = then_call make_probe_dir refl (λ lost. if-IsQuiet lost (pure-IsQuiet _ tt) (
      then_call probe_mount refl (λ e. if-IsQuiet e (pure-IsQuiet _ tt) (
        bind-IsQuiet Any (find_init-IsQuiet ("sbin/init" ∷ "init" ∷ "bin/init" ∷ [])) (λ b _.
          then-IsQuiet (ask-IsQuiet probe_unmount env.call_fails refl) (pure-IsQuiet _ tt))))))

  probe_if-IsQuiet : (o : Option String) → IsQuiet Any (probe_if env site o)
  probe_if-IsQuiet none = pure-IsQuiet _ tt
  probe_if-IsQuiet (some p) = if-IsQuiet (p =ₛ "") (pure-IsQuiet _ tt) probe-IsQuiet

  with_manifest-IsQuiet : (o : Option String) → IsQuiet Any (with_manifest env site o)
  with_manifest-IsQuiet none = pure-IsQuiet _ tt
  with_manifest-IsQuiet (some name) =
      then_call (restore_installers ("rootfs-image" ∷ [])) refl (λ lost. pure-IsQuiet _ tt)

  pre_database-IsQuiet : IsQuiet Any (handle_pre_database_restore env site)
  unfolding handle_pre_database_restore inactive_partition_looks_bootable
  pre_database-IsQuiet =
      if-IsQuiet site.has_dual_rootfs
        (then_call dual_rootfs_verify_reboot refl (λ no_update.
          if-IsQuiet no_update (pure-IsQuiet _ tt) (
            bind-IsQuiet Any
              (bind-IsQuiet Any (ask-IsQuiet find_inactive site.inactive refl)
                (λ o _. probe_if-IsQuiet o))
              (λ bootable _.
                if-IsQuiet bootable
                  (bind-IsQuiet Any (ask-IsQuiet manifest_data env.text_answer refl)
                    (λ o _. with_manifest-IsQuiet o))
                  (pure-IsQuiet _ tt)))))
        (pure-IsQuiet _ tt)

  decoded-IsQuiet : (r : Read StandaloneStateData) → IsQuiet Any (decoded env site r)
  decoded-IsQuiet missing = pre_database-IsQuiet
  decoded-IsQuiet undecodable = pure-IsQuiet _ tt
  decoded-IsQuiet (found d) =
      if-IsQuiet (d.version == 1)
        (then_call (restore_installers d.payload_types) refl (λ lost. pure-IsQuiet _ tt))
        (pure-IsQuiet _ tt)

  restore-IsQuiet : IsQuiet Any (restore_standalone_data env site)
  unfolding restore_standalone_data
  restore-IsQuiet = then_call read_standalone refl (λ lost.
      bind-IsQuiet Any (gets-IsQuiet (λ s. s.db)) (λ db _.
        if-IsQuiet lost (pure-IsQuiet _ tt)
          (decoded-IsQuiet (read_standalone_data (lookup standalone_state_key db)))))

  commit_restored-IsQuiet : (r : Restored) → IsQuiet Any (commit_restored env site r)
  commit_restored-IsQuiet (none, f) = pure-IsQuiet _ tt
  commit_restored-IsQuiet (some sd, f) = commit_states-IsQuiet env no_support sd

  pub commit-IsQuiet : IsQuiet Any (do_standalone_commit env site)
  unfolding do_standalone_commit
  commit-IsQuiet = bind-IsQuiet Any restore-IsQuiet (λ r _. commit_restored-IsQuiet r)

  roll_back_supported-IsQuiet :
      (sd : StandaloneData) (o : Option Bool)
      → IsUnsupported o
      → IsQuiet Any (roll_back_supported env site sd o)
  roll_back_supported-IsQuiet sd none u = pure-IsQuiet _ tt
  roll_back_supported-IsQuiet sd (some false) u = pure-IsQuiet _ tt
  roll_back_supported-IsQuiet sd (some true) u = absurd (u refl)

  roll_back_restored-IsQuiet : (r : Restored) → IsQuiet Any (roll_back_restored env site r)
  roll_back_restored-IsQuiet (none, f) = pure-IsQuiet _ tt
  roll_back_restored-IsQuiet (some sd, f) =
      bind-IsQuiet IsUnsupported (determine_rollback_support-IsQuiet env no_support sd.installers)
        (λ o u. roll_back_supported-IsQuiet sd o u)

  pub rollback-IsQuiet : IsQuiet Any (do_standalone_rollback env site)
  unfolding do_standalone_rollback
  rollback-IsQuiet = bind-IsQuiet Any restore-IsQuiet (λ r _. roll_back_restored-IsQuiet r)
