-- ===== src/Tests/Boot.antt =====
-- Runs of the boot environment in files and of the two root file systems.
use ota_pulse.Prelude.{
  true, false, none, some, List, [], ◌∷◌, ◌≡◌, ◌≢◌, refl, str_ne, ◌=ₛ◌, arith, if◌then◌else◌,
  lookup, contains, keep,
}
use ota_pulse.Prelude.Int.{pos}
use ota_pulse.Installer.Text.{
  format_int, format_upper_hex, digits, write_digits, parse_int, parse_uint, parse_digits, atoi,
  trim_space, trim_left, trim_right, is_space, split_where, lines, fields, after_last_other,
  trailing_digits, extract_partition_number,
}
use ota_pulse.Installer.World.{
  World, System, ◌>>=◌, ◌>>◌, pure, gets, modify, ask, then_if, set_file, set_boot, write_data,
}
use ota_pulse.Installer.FileEnv.Files.{
  upgrade_avail_file, boot_count_file, mender_boot_part_file, content_of, read_file, before_retry,
  attempts, write_file,
}
use ota_pulse.Installer.FileEnv.Slots.{
  root_device, partition_number_to_slot, get_device_for_part_num, current_number,
  detect_current_partition_number,
}
use ota_pulse.Installer.FileEnv.BootPartition.{
  boot_partition, mount_lines, has_vfat_at, mounted_point, u_boot_env_works, write_boot,
  keep_cmdline, rewrite_cmdline, update_boot_cmdline, direct_boot, sync_to,
  sync_boot_slot_to_boot_partition, is_none, with_root, join_words,
}
use ota_pulse.Installer.FileEnv.Vars.{
  var_of, write_as, write_var, write_if, write_named, write_all, write_env, write_mender_boot_part,
}
use ota_pulse.Installer.FileEnv.Reconcile.{
  file_boot_env, reconcile_to_booted_slot, realign, realign_to,
}
use ota_pulse.Installer.FileEnv.Synced.{IsSynced}
use ota_pulse.Installer.FileEnv.Writes.{Has}
use ota_pulse.Installer.Partitions.{get_inactive}
use ota_pulse.Installer.DualRootfs.{
  install_update, get_inactive_partition, get_partition_impl, switch_boot_slot,
  handle_boot_count_fallback,
}
use ota_pulse.Installer.DualRootfs.Announced.{IsInstalled, flag}
use ota_pulse.Installer.DualRootfs.Install.{install_update-announces, install_update-installs}
use ota_pulse.Installer.DualRootfs.TwoSlots.{TwoSlots, Request, specified, specified_run}
use ota_pulse.Installer.DualRootfs.Shown.{Refines}
use ota_pulse.Installer.DualRootfs.Refines.{serve, serve-Refines}
use ota_pulse.Installer.DualRootfs.Boots.{handle_boot_count_fallback-clears}
use ota_pulse.Installer.DualRootfs.Reconciled.{reconcile_to_booted_slot-keeps}
use ota_pulse.Tests.BootSetup.{
  board, is_flag, mounted, stored, tried, board-HasBootPartition, board-IsReliable,
}

-- The number of the partition that is stored.
number : atoi (trailing_digits "/dev/mmcblk0p3") ≡ some (pos 3)
unfolding atoi parse_int parse_uint parse_digits trailing_digits after_last_other
number = refl

unflagged : flag stored ≢ "1"
unfolding content_of trim_space trim_left trim_right is_space
unflagged = str_ne "0" "1" refl

installs : (install_update board mounted (file_boot_env board) stored).0 ≡ false
unfolding install_update get_inactive_partition get_inactive get_partition_impl switch_boot_slot
    trailing_digits after_last_other atoi parse_int parse_uint parse_digits format_upper_hex
    format_int digits write_digits ◌>>=◌ ◌>>◌ pure gets modify ask then_if set_file set_boot
    write_data before_retry attempts write_file write_env write_named write_all write_if write_var
    write_as var_of write_mender_boot_part partition_number_to_slot extract_partition_number
    sync_boot_slot_to_boot_partition boot_partition mount_lines mounted_point has_vfat_at fields
    lines split_where is_space sync_to write_boot direct_boot u_boot_env_works
    get_device_for_part_num update_boot_cmdline rewrite_cmdline keep_cmdline is_none with_root
    join_words trim_space trim_left trim_right content_of lookup contains keep
installs = refl

flagged : flag (install_update board mounted (file_boot_env board) stored).1 ≡ "1"
unfolding install_update get_inactive_partition get_inactive get_partition_impl switch_boot_slot
    trailing_digits after_last_other atoi parse_int parse_uint parse_digits format_upper_hex
    format_int digits write_digits ◌>>=◌ ◌>>◌ pure gets modify ask then_if set_file set_boot
    write_data before_retry attempts write_file write_env write_named write_all write_if write_var
    write_as var_of write_mender_boot_part partition_number_to_slot extract_partition_number
    sync_boot_slot_to_boot_partition boot_partition mount_lines mounted_point has_vfat_at fields
    lines split_where is_space sync_to write_boot direct_boot u_boot_env_works
    get_device_for_part_num update_boot_cmdline rewrite_cmdline keep_cmdline is_none with_root
    join_words trim_space trim_left trim_right content_of lookup contains keep
flagged = refl

install_update-announces_example :
    IsSynced (format_int 10 (pos 3)) (install_update board mounted (file_boot_env board) stored).1
install_update-announces_example =
    install_update-announces board mounted stored 3 board-HasBootPartition refl number unflagged
      flagged

install_update-installs_example :
    IsInstalled
      (format_int 10 (pos 3))
      (install_update board mounted (file_boot_env board) stored).1
install_update-installs_example =
    install_update-installs board mounted stored 3 board-HasBootPartition refl number unflagged
      installs

abbrev slots : TwoSlots
slots = record { running = 2; other = 3; target = 2; pending = false }

abbrev requests : List Request
requests =
    Request.install ∷ Request.roll_back ∷ Request.install ∷ Request.verify ∷ Request.commit
    ∷ Request.commit ∷ []

stored-Refines : Refines slots stored
unfolding trailing_digits after_last_other format_int digits write_digits
stored-Refines = record {
  runs = record { known = refl; number = refl; small = ground arith };
  waits = record { known = refl; number = refl; small = ground arith };
  names = refl;
  small = ground arith;
  marks = refl;
}

serve-Refines_example :
    ((serve board board-IsReliable mounted requests stored).0 ≡ (specified_run requests slots).0)
    × Refines
        (specified_run requests slots).1
        (serve board board-IsReliable mounted requests stored).1
serve-Refines_example =
    serve-Refines board board-IsReliable mounted requests slots stored stored-Refines

-- The second commit has nothing to commit.
specified_results :
    (specified_run requests slots).0 ≡ false ∷ false ∷ false ∷ false ∷ false ∷ true ∷ []
unfolding specified_run specified
specified_results = refl

hex_number : atoi (trailing_digits "/dev/sda12") ≡ some (pos 12)
unfolding atoi parse_int parse_uint parse_digits trailing_digits after_last_other
hex_number = refl

hex_named : get_partition_impl "/dev/sda12" ≡ some (trailing_digits "/dev/sda12", "C")
unfolding get_partition_impl atoi parse_int parse_uint parse_digits trailing_digits after_last_other
    format_upper_hex digits write_digits
hex_named = refl

reconcile_to_booted_slot-keeps_example :
    ((reconcile_to_booted_slot board stored).1.files upgrade_avail_file
      ≡ World.files stored upgrade_avail_file)
    × ((reconcile_to_booted_slot board stored).1.boot ≡ World.boot stored)
reconcile_to_booted_slot-keeps_example =
    reconcile_to_booted_slot-keeps board stored upgrade_avail_file refl refl

handle_boot_count_fallback-clears_example :
    Has upgrade_avail_file "0"
      (handle_boot_count_fallback board mounted (file_boot_env board) tried).1
    × Has boot_count_file "0"
        (handle_boot_count_fallback board mounted (file_boot_env board) tried).1
unfolding format_int digits write_digits
handle_boot_count_fallback-clears_example =
    handle_boot_count_fallback-clears board board-IsReliable mounted tried 3 refl refl
      (ground arith)

-- A board on which the flag cannot be read: the boot partition file of an update that waits is
-- written over by the reconciliation.
abbrev unreadable : System
unreadable = record board { fails = λ calls. is_flag calls }

abbrev waiting : World
waiting = record stored {
  files = λ path.
      if path =ₛ upgrade_avail_file
      then some "1\n"
      else (if path =ₛ mender_boot_part_file then some "3\n" else none);
}

unreadable_flag :
    (reconcile_to_booted_slot unreadable waiting).1.files mender_boot_part_file ≡ some "2\n"
unfolding reconcile_to_booted_slot read_file content_of ◌>>=◌ ◌>>◌ ask gets pure then_if modify
    set_file write_data before_retry attempts write_file detect_current_partition_number
    current_number root_device lines fields split_where is_space trim_space trim_left trim_right
    keep extract_partition_number after_last_other realign_to realign partition_number_to_slot
unreadable_flag = refl
