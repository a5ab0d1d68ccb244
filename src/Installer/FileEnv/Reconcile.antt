-- ===== src/Installer/FileEnv/Reconcile.antt =====
-- installer/file_bootenv.go: what is cleaned up and set right after a boot, and the interface.
use Prim.Native.String.{◌++◌ as ◌++ₛ◌}
use ota_pulse.Prelude.{
  String, Bool, true, false, ◌&&◌, Option, none, some, List, [], ◌∷◌, ◌=ₛ◌, if◌then◌else◌,
}
use ota_pulse.Installer.Text.{is_empty}
use ota_pulse.Installer.World.{
  Call, World, M, ◌>>=◌, ◌>>◌, pure, gets, modify, ask, then_if, System, try, set_boot,
}
use ota_pulse.Installer.BootEnv.{BootVars, BootEnv}
use ota_pulse.Installer.FileEnv.Files.{
  slot_file, upgrade_avail_file, mender_boot_part_file, read_file, write_file,
}
use ota_pulse.Installer.FileEnv.Slots.{partition_number_to_slot, detect_current_partition_number}
use ota_pulse.Installer.FileEnv.BootPartition.{
  boot_mount_points, mount_lines, mounted_point, boot_devices, mount_first, u_boot_env_works,
}
use ota_pulse.Installer.FileEnv.Vars.{read_env, write_env}

module _ (sys : System) where
  -- The mount point is there, or it was mounted for this, which is the flag.
  abbrev pub found_or_mount : List String → Option String → M (Option String × Bool)
  found_or_mount table (some mount) = pure (some mount, false)
  found_or_mount table none = do
    mounted ← mount_first sys table boot_devices false
    pure (mounted.0, true)

  unfoldable pub find_boot_dir : M (Option String × Bool)
  find_boot_dir = do
    mounts ← ask Call.read_mounts sys.mounts
    found_or_mount (mount_lines mounts) (mounted_point sys (mount_lines mounts) boot_mount_points)

  abbrev pub removed : String → Bool → World → World
  removed at true w = w
  removed at false w = set_boot at (record (w.boot at) { cmdline_prev = none }) w

  abbrev pub remove_if : String → String → Option String → M (Unit {0})
  remove_if path at none = pure tt
  remove_if path at (some content) = do
    failed ← try sys (Call.remove_file path)
    modify (removed at failed)

  -- Removes the copy of the old command line, if it is there.
  unfoldable pub remove_prev : String → M (Unit {0})
  remove_prev at = do
    let path = at ++ₛ "/cmdline_prev.txt"
    unknown ← try sys (Call.stat_file path)
    dir ← gets (λ w. w.boot at)
    remove_if path at (if unknown then none else dir.cmdline_prev)

  unfoldable pub clear_in : Option String × Bool → M (Unit {0})
  clear_in (none, mounted) = pure tt
  clear_in (some at, mounted) = do
    remove_prev at
    then_if mounted do try sys (Call.command "umount" (at ∷ [])); pure tt

  unfoldable pub clear_direct_boot_backup : M (Unit {0})
  clear_direct_boot_backup = do
    works ← u_boot_env_works sys
    if works then pure tt else find_boot_dir >>= clear_in

  -- The two files are set to the partition that is running.
  unfoldable pub realign : String → String → M (Unit {0})
  realign actual_part slot = do
    cur_part ← read_file sys mender_boot_part_file ""
    cur_slot ← read_file sys slot_file ""
    if cur_part.0 =ₛ actual_part && cur_slot.0 =ₛ slot then pure tt else do
      failed ← write_file sys mender_boot_part_file actual_part
      if failed then pure tt else do write_file sys slot_file slot; pure tt

  unfoldable pub realign_to : Option String → M (Unit {0})
  realign_to none = pure tt
  realign_to (some actual_part) =
      let slot = partition_number_to_slot sys actual_part in
      if is_empty slot then pure tt else realign actual_part slot

  -- The flag that cannot be read counts as its default, "0".
  unfoldable pub reconcile_to_booted_slot : M (Unit {0})
  reconcile_to_booted_slot = do
    ua ← read_file sys upgrade_avail_file "0"
    if ua.0 =ₛ "1" then pure tt else detect_current_partition_number sys >>= realign_to

  abbrev pub always : M BootVars → M (Option BootVars)
  always m = do vars ← m; pure (some vars)

  -- `FileBasedBootEnv` as a boot environment.
  abbrev pub file_boot_env : BootEnv
  file_boot_env = record {
    read_env = λ names. always (read_env sys names);
    write_env = write_env sys;
    reconcile_to_booted_slot = reconcile_to_booted_slot;
    clear_direct_boot_backup = clear_direct_boot_backup;
  }
