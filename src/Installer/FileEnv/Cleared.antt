-- ===== src/Installer/FileEnv/Cleared.antt =====
-- installer/file_bootenv.go `ClearDirectBootBackup`: what it keeps.
use Prim.Native.String.{◌++◌ as ◌++ₛ◌}
use ota_pulse.Prelude.{String, Bool, true, false, Option, none, some, List, [], ◌∷◌, if◌then◌else◌}
use ota_pulse.Installer.World.{Call, World, System}
use ota_pulse.Installer.Triple.{
  Triple, After, IsCallFree, bind-Triple, then-Triple, pure-Triple, gets-Triple, modify-Triple,
  ask-Triple, if-Triple, then_if-Triple,
}
use ota_pulse.Installer.FileEnv.BootPartition.{
  boot_mount_points, boot_devices, mount_lines, mounted_point,
}
use ota_pulse.Installer.FileEnv.Reconcile.{
  found_or_mount, find_boot_dir, removed, remove_if, remove_prev, clear_in,
  clear_direct_boot_backup,
}
use ota_pulse.Installer.FileEnv.Kept.{IsCmdlineFree, mount_first-keeps, u_boot_env_works-keeps}

module _ (sys : System) {P : World → Type 0} (free : IsCallFree P) (cmd : IsCmdlineFree P) where
  found_or_mount-keeps :
      (table : List String) (point : Option String)
      → Triple P (found_or_mount sys table point) (After P)
  found_or_mount-keeps table (some mount) = pure-Triple (some mount, false) (λ w p. p)
  found_or_mount-keeps table none =
      bind-Triple (After P) (mount_first-keeps sys free table boot_devices false)
        (λ mounted. pure-Triple (mounted.0, true) (λ w p. p))

  find_boot_dir-keeps : Triple P (find_boot_dir sys) (After P)
  unfolding find_boot_dir
  find_boot_dir-keeps =
      bind-Triple (After P) (ask-Triple Call.read_mounts sys.mounts free) (λ mounts.
        found_or_mount-keeps (mount_lines mounts)
          (mounted_point sys (mount_lines mounts) boot_mount_points))

  removed-keeps : (at : String) (failed : Bool) (w : World) → P w → P (removed sys at failed w)
  removed-keeps at true w p = p
  removed-keeps at false w p = cmd w at (w.boot at).cmdline none p

  remove_if-keeps :
      (path at : String) (copy : Option String) → Triple P (remove_if sys path at copy) (After P)
  remove_if-keeps path at none = pure-Triple tt (λ w p. p)
  remove_if-keeps path at (some content) =
      bind-Triple (After P) (ask-Triple (Call.remove_file path) sys.fails free)
        (λ failed. modify-Triple (removed sys at failed) (removed-keeps at failed))

  remove_prev-keeps : (at : String) → Triple P (remove_prev sys at) (After P)
  unfolding remove_prev
  remove_prev-keeps at =
      bind-Triple (After P)
        (ask-Triple (Call.stat_file (at ++ₛ "/cmdline_prev.txt")) sys.fails free)
        (λ unknown. bind-Triple (After P) (gets-Triple (λ w. w.boot at) (λ w p. p)) (λ dir.
          remove_if-keeps (at ++ₛ "/cmdline_prev.txt") at
            (if unknown then none else dir.cmdline_prev)))

  clear_in-keeps : (found : Option String × Bool) → Triple P (clear_in sys found) (After P)
  unfolding clear_in
  clear_in-keeps (none, mounted) = pure-Triple tt (λ w p. p)
  clear_in-keeps (some at, mounted) = then-Triple P (remove_prev-keeps at) (
      then_if-Triple mounted (
        then-Triple P (ask-Triple (Call.command "umount" (at ∷ [])) sys.fails free)
          (pure-Triple tt (λ w p. p))))

  pub clear_direct_boot_backup-keeps : Triple P (clear_direct_boot_backup sys) (After P)
  unfolding clear_direct_boot_backup
  clear_direct_boot_backup-keeps = bind-Triple (After P) (u_boot_env_works-keeps sys free) (λ works.
      if-Triple works (pure-Triple tt (λ w p. p))
        (bind-Triple (After P) find_boot_dir-keeps clear_in-keeps))
