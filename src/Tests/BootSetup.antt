-- ===== src/Tests/BootSetup.antt =====
-- A board with two root file systems, and worlds that it may be in.
use ota_pulse.Prelude.{
  String, Bool, false, none, some, List, [], ◌∷◌, refl, ◌=ₛ◌, if◌then◌else◌, keep,
}
use ota_pulse.Installer.Text.{is_space, split_where, lines, fields}
use ota_pulse.Installer.World.{Call, World, WriteResult, BootDir, System, ◌>>=◌, pure, ask}
use ota_pulse.Installer.FileEnv.Files.{upgrade_avail_file, boot_count_file, mender_boot_part_file}
use ota_pulse.Installer.FileEnv.BootPartition.{
  boot_partition, mount_lines, has_vfat_at, mounted_point,
}
use ota_pulse.Installer.FileEnv.Synced.{HasBootPartition}
use ota_pulse.Installer.FileEnv.Reliable.{IsReliable}
use ota_pulse.Installer.Partitions.{Mounted}

abbrev pub mount_table : String
mount_table = "/dev/mmcblk0p2 / ext4 rw\n/dev/mmcblk0p1 /boot vfat rw\n"

-- A board with a boot partition at /boot, without U-Boot, on which nothing fails.
abbrev pub board : System
board = record {
  rootfs_part_a = "/dev/mmcblk0p2";
  rootfs_part_b = "/dev/mmcblk0p3";
  fails = λ calls. false;
  write_result = λ calls. WriteResult.written;
  mounts = λ calls. some mount_table;
  exists = λ path. path =ₛ "/boot";
  resolve = λ path. none;
  in_path = λ name. false;
}

abbrev pub is_flag : List Call → Bool
is_flag (Call.read_file path ∷ calls) = path =ₛ upgrade_avail_file
is_flag _ = false

abbrev pub mounted : Mounted
mounted = record {
  mount_output = λ calls. none;
  root_device = λ calls. none;
  all_devices = λ calls. none;
  device_id = λ calls path. none;
}

abbrev pub boot_dir : BootDir
boot_dir = record {
  mender_boot_part = some "2\n";
  cmdline = some "console=tty1 root=/dev/mmcblk0p2 rw\n";
  cmdline_prev = none;
}

-- The device runs partition 2, and an update is stored in partition 3.
abbrev pub stored : World
stored = record {
  trace = [];
  files = λ path.
      if path =ₛ mender_boot_part_file
      then some "2\n"
      else (if path =ₛ upgrade_avail_file then some "0\n" else none);
  boot = λ at. boot_dir;
  active = "/dev/mmcblk0p2";
  inactive = "/dev/mmcblk0p3";
}

-- The same, with an update that was booted three times.
abbrev pub tried : World
tried = record stored {
  files = λ path.
      if path =ₛ upgrade_avail_file
      then some "1\n"
      else (if path =ₛ boot_count_file then some "3\n" else none);
}

pub board-HasBootPartition : HasBootPartition board
unfolding boot_partition ◌>>=◌ ask pure mount_lines mounted_point has_vfat_at fields lines
    split_where is_space keep
board-HasBootPartition = record { found = λ w. refl }

pub board-IsReliable : IsReliable board
unfolding boot_partition ◌>>=◌ ask pure mount_lines mounted_point has_vfat_at fields lines
    split_where is_space keep
board-IsReliable = record {
  no_failure = λ calls. refl;
  all_written = λ calls. refl;
  found = λ w. ("/boot", refl);
}
