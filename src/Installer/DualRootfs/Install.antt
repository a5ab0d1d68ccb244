-- ===== src/Installer/DualRootfs/Install.antt =====
-- installer/dual_rootfs_device.go `InstallUpdate` on a boot environment in files: the order of its
-- writes.
use ota_pulse.Prelude.{
  ℕ, String, Bool, true, false, not, some, ◌≡◌, ◌≢◌, refl, ◌<◌, if◌then◌else◌, arith, lookup,
  contains, keep,
}
use ota_pulse.Prelude.Int.{pos}
use ota_pulse.Installer.Text.{format_int, format_upper_hex, cutoff, is_empty, atoi, trailing_digits}
use ota_pulse.Installer.Text.Laws.{atoi-lt}
use ota_pulse.Installer.World.{World, ◌>>=◌, ◌>>◌, pure, gets, System, set_file}
use ota_pulse.Installer.Triple.{
  Triple, After, bind-Triple, then-Triple, pure-Triple, if-Triple, weaken-Triple, ask-Triple,
}
use ota_pulse.Installer.FileEnv.Files.{upgrade_avail_file}
use ota_pulse.Installer.FileEnv.Vars.{
  write_env, write_named, write_all, write_if, write_var, write_as, var_of,
}
use ota_pulse.Installer.FileEnv.Writes.{write_file-keeps}
use ota_pulse.Installer.FileEnv.Synced.{IsSynced, HasBootPartition}
use ota_pulse.Installer.DualRootfs.{
  commit_vars, switch_boot_slot, switch_boot_slot_script, install_to, install_update,
  get_inactive_partition, get_partition_impl,
}
use ota_pulse.Installer.Partitions.{Mounted, get_inactive}
use ota_pulse.Installer.BootEnv.{BootEnv}
use ota_pulse.Installer.FileEnv.Reconcile.{file_boot_env}
use ota_pulse.Installer.DualRootfs.Announced.{
  flag, IsInstalled, Unflagged, Done, part, write_env-announces,
}

module _ (sys : System) (board : HasBootPartition sys) (n : ℕ) (small : n < cutoff) where
  commit_vars-keeps :
      Triple
        (IsSynced (part sys board n small))
        (write_env sys commit_vars)
        (After (IsSynced (part sys board n small)))
  unfolding write_env write_named write_if lookup keep contains write_all write_var write_as var_of
      set_file ◌>>=◌ pure
  commit_vars-keeps =
      bind-Triple (After (IsSynced (part sys board n small)))
        (bind-Triple (After (IsSynced (part sys board n small)))
          (write_file-keeps sys (λ w calls p. record { recorded = p.recorded; boots = p.boots })
            upgrade_avail_file (λ w c p. record { recorded = p.recorded; boots = p.boots }) "0")
          (λ failed. if-Triple failed (pure-Triple true (λ w p. p)) (pure-Triple false (λ w p. p))))
        (λ failed. if-Triple failed (pure-Triple true (λ w p. p)) (pure-Triple false (λ w p. p)))

  module _ (mounted : Mounted) where
    abbrev env : BootEnv
    env = file_boot_env sys

    switched-keeps :
        (dec : String)
        → Triple
            (IsInstalled (part sys board n small))
            (switch_boot_slot sys mounted env dec)
            (After (IsInstalled (part sys board n small)))
    unfolding switch_boot_slot
    switched-keeps dec =
        if-Triple (not (sys.exists switch_boot_slot_script)) (pure-Triple false (λ w p. p)) (
          ask-Triple _ sys.fails (λ w calls p. record {
            synced = record { recorded = p.synced.recorded; boots = p.synced.boots };
            counted = p.counted;
            flagged = p.flagged;
          }))

    after_switch :
        (not_switched : Bool)
        → Triple
            (IsInstalled (part sys board n small))
            (if not not_switched then pure false else write_env sys commit_vars >> pure true)
            (Done sys board n small)
    after_switch false = pure-Triple false (λ w p. ((λ e. p.synced), (λ e. p)))
    after_switch true =
        weaken-Triple (λ w p. p.synced) (λ a w q. q)
          (then-Triple (IsSynced (part sys board n small)) commit_vars-keeps
            (pure-Triple true (λ w p. ((λ e. p), (λ e. ground arith)))))

    after_write :
        (dec : String) (failed : Bool)
        → Triple
            (Done sys board n small failed)
            (if failed
              then pure true
              else (switch_boot_slot sys mounted env dec >>= λ not_switched.
                  if not not_switched then pure false else write_env sys commit_vars >> pure true))
            (Done sys board n small)
    after_write dec true = pure-Triple true (λ w p. p)
    after_write dec false =
        weaken-Triple (λ w p. p.1 refl) (λ a w q. q)
          (bind-Triple (After (IsInstalled (part sys board n small))) (switched-keeps dec)
            after_switch)

    install_to-announces :
        (dec : String)
        → Triple
            (Unflagged sys board n small)
            (install_to sys mounted env (some (dec, format_upper_hex n)))
            (Done sys board n small)
    install_to-announces dec =
        bind-Triple (Done sys board n small) (write_env-announces sys board n small dec)
          (after_write dec)

-- A partition that was found is not looked for again.
pub get_inactive_cached :
    (sys : System) (mounted : Mounted) (env : BootEnv) (w : World)
    → is_empty w.inactive ≡ false
    → get_inactive sys mounted env w ≡ (some w.inactive, w)
unfolding get_inactive ◌>>=◌ gets pure
get_inactive_cached sys mounted env w known = rw known refl

pub get_partition_impl-number :
    (partition : String) {n : ℕ}
    → atoi (trailing_digits partition) ≡ some (pos n)
    → get_partition_impl partition ≡ some (trailing_digits partition, format_upper_hex n)
unfolding get_partition_impl
get_partition_impl-number partition e = rw e refl

module _ (sys : System) (mounted : Mounted) (w : World) (n : ℕ) (board : HasBootPartition sys)
    (known : is_empty w.inactive ≡ false)
    (number : atoi (trailing_digits w.inactive) ≡ some (pos n)) where
  pub install_update_known :
      install_update sys mounted (file_boot_env sys) w
      ≡ install_to sys mounted
          (file_boot_env sys)
          (some (trailing_digits w.inactive, format_upper_hex n))
          w
  unfolding install_update get_inactive_partition ◌>>=◌ pure
  install_update_known =
      rw
        (
          get_inactive_cached sys mounted (file_boot_env sys) w known,
          get_partition_impl-number w.inactive number,
        )
        refl

  module _ (unset : flag w ≢ "1") where
    install_update-Leaves :
        Done sys board n
          (atoi-lt (trailing_digits w.inactive) number)
          (install_update sys mounted (file_boot_env sys) w).0
          (install_update sys mounted (file_boot_env sys) w).1
    install_update-Leaves = rw install_update_known (
        (install_to-announces sys board n (atoi-lt (trailing_digits w.inactive) number) mounted
            (trailing_digits w.inactive)).run
          w unset)

    -- Whatever fails in `InstallUpdate`, if the flag of an update reads "1" after it and did not
    -- before, then the file of the boot partition and the boot partition itself name the inactive
    -- partition, if the board has a boot partition and the inactive partition, which ends in a
    -- number, is known.
    pub install_update-announces :
        flag (install_update sys mounted (file_boot_env sys) w).1 ≡ "1"
        → IsSynced (format_int 10 (pos n)) (install_update sys mounted (file_boot_env sys) w).1
    install_update-announces = install_update-Leaves.0

    -- An `InstallUpdate` without an error leaves the inactive partition in the file and in the boot
    -- partition, a count of no boots, and the flag set, if the flag was not set before, the board has
    -- a boot partition, and the inactive partition, which ends in a number, is known.
    pub install_update-installs :
        (install_update sys mounted (file_boot_env sys) w).0 ≡ false
        → IsInstalled (format_int 10 (pos n)) (install_update sys mounted (file_boot_env sys) w).1
    install_update-installs = install_update-Leaves.1
