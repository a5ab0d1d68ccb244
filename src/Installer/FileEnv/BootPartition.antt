-- ===== src/Installer/FileEnv/BootPartition.antt =====
-- installer/file_bootenv.go: the boot partition, found by its mount point or mounted, and what is
-- written to it.
use Prim.Native.String.{◌++◌ as ◌++ₛ◌}
use text.Mathlib.Text.{starts_with}
use ota_pulse.Prelude.{
  String, Bool, true, false, not, ◌&&◌, ◌||◌, Option, none, some, List, [], ◌∷◌, map, any, ◌=ₛ◌,
  if◌then◌else◌,
}
use ota_pulse.Installer.Text.{trim_space, lines, fields, is_empty}
use ota_pulse.Installer.World.{
  Call, BootDir, M, ◌>>=◌, ◌>>◌, pure, gets, modify, ask, then_if, System, try, set_boot, left_by,
  is_written,
}
use ota_pulse.Installer.FileEnv.Slots.{real_path, get_device_for_part_num}

abbrev pub boot_mount_points : List String
boot_mount_points = "/mnt/boot" ∷ "/boot/firmware" ∷ "/boot" ∷ []

abbrev pub boot_devices : List String
boot_devices =
    "/dev/disk/by-partlabel/boot" ∷ "/dev/disk/by-label/boot" ∷ "/dev/disk/by-label/BOOT"
    ∷ "/dev/mmcblk1p1" ∷ "/dev/mmcblk0p1" ∷ "/dev/sda1" ∷ []

-- The lines of the mount table; none where it cannot be read.
unfoldable pub mount_lines : Option String → List String
mount_lines none = lines ""
mount_lines (some mounts) = lines mounts

-- A line of the mount table that has a FAT file system at a mount point.
unfoldable pub has_vfat_at : String → List String → Bool
has_vfat_at mount [] = false
has_vfat_at mount (device ∷ []) = false
has_vfat_at mount (device ∷ point ∷ []) = false
has_vfat_at mount (device ∷ point ∷ kind ∷ _) = point =ₛ mount && kind =ₛ "vfat"

abbrev pub is_root : String → Bool
is_root p = starts_with p "root="

-- A token of the command line of the kernel, with the new root.
unfoldable pub with_root : String → String → String
with_root new_root_dev p = if is_root p then "root=" ++ₛ new_root_dev else p

-- strings.Join at a space
unfoldable pub join_words : List String → String
join_words [] = ""
join_words (w ∷ []) = w
join_words (w ∷ v ∷ ws) = w ++ₛ (" " ++ₛ join_words (v ∷ ws))

unfoldable pub is_none {ℓ} : {A : Type ℓ} → Option A → Bool
is_none none = true
is_none (some a) = false

module _ (sys : System) where
  abbrev is_at : String → List String → Bool
  is_at real [] = false
  is_at real (device ∷ []) = false
  is_at real (device ∷ point ∷ _) = real_path sys device =ₛ real

  unfoldable pub device_already_mounted : String → List String → Bool
  device_already_mounted dev table = any (λ line. is_at (real_path sys dev) (fields line)) table

  -- The first of the mount points that there is and that has a FAT file system.
  unfoldable pub mounted_point : List String → List String → Option String
  mounted_point table [] = none
  mounted_point table (mount ∷ points) =
      let rest = mounted_point table points in
      if sys.exists mount && any (λ line. has_vfat_at mount (fields line)) table
      then some mount
      else rest

  -- Mounts the first device that can be mounted: the mount point, and whether one was tried.
  unfoldable pub mount_first : List String → List String → Bool → M (Option String × Bool)
  mount_first table [] tried = pure (none, tried)
  mount_first table (dev ∷ devices) tried =
      let rest = mount_first table devices in
      if not (sys.exists dev) || device_already_mounted dev table then rest tried else do
        no_dir ← try sys (Call.make_dir "/mnt/boot")
        if no_dir then rest true else do
          failed ← try sys (Call.command "mount" (dev ∷ "/mnt/boot" ∷ []))
          if failed then rest true else pure (some "/mnt/boot", true)

  abbrev pub or_mount : List String → Option String → M (Option String × Bool)
  or_mount table (some mount) = pure (some mount, true)
  or_mount table none = mount_first table boot_devices false

  -- The mount point of the boot partition, and whether there is one on this board.
  unfoldable pub boot_partition : M (Option String × Bool)
  boot_partition = do
    mounts ← ask Call.read_mounts sys.mounts
    or_mount (mount_lines mounts) (mounted_point (mount_lines mounts) boot_mount_points)

  unfoldable pub u_boot_env_works : M Bool
  u_boot_env_works =
      if not (sys.in_path "fw_printenv")
      then pure false
      else do failed ← try sys (Call.command "fw_printenv" []); pure (not failed)

  -- A write to a file of the boot partition, which `put` sets.
  unfoldable pub write_boot :
      String
      → String
      → String
      → (BootDir → Option String)
      → (Option String → BootDir → BootDir)
      → M Bool
  write_boot at name content get put = do
    r ← ask (Call.write_file name content) sys.write_result
    modify (λ w. set_boot at (put (left_by r content (get (w.boot at))) (w.boot at)) w)
    pure (is_written r)

  abbrev pub write_slot_byte : String → String → M Bool
  write_slot_byte at part_num =
      write_boot at (at ++ₛ "/mender_boot_part") (part_num ++ₛ "\n") (λ d. d.mender_boot_part)
        (λ c d. record d { mender_boot_part = c })

  abbrev pub write_prev : String → String → M Bool
  write_prev at content =
      write_boot at (at ++ₛ "/cmdline_prev.txt") content (λ d. d.cmdline_prev)
        (λ c d. record d { cmdline_prev = c })

  abbrev pub write_cmdline : String → String → M Bool
  write_cmdline at content =
      write_boot at (at ++ₛ "/cmdline.txt") content (λ d. d.cmdline)
        (λ c d. record d { cmdline = c })

  -- The command line is kept once, for the way back.
  unfoldable pub keep_cmdline : String → String → M (Unit {0})
  keep_cmdline at content = do
    unknown ← try sys (Call.stat_file (at ++ₛ "/cmdline_prev.txt"))
    dir ← gets (λ w. w.boot at)
    then_if (not unknown && is_none dir.cmdline_prev) do write_prev at content; pure tt

  unfoldable pub rewrite_cmdline : String → String → Option String → M (Unit {0})
  rewrite_cmdline at new_root_dev none = pure tt
  rewrite_cmdline at new_root_dev (some content) =
      let parts = fields (trim_space content) in
      then_if (any is_root parts) do
        keep_cmdline at content
        write_cmdline at (join_words (map (with_root new_root_dev) parts) ++ₛ "\n")
        pure tt

  unfoldable pub update_boot_cmdline : String → String → M (Unit {0})
  update_boot_cmdline at new_root_dev = do
    failed ← try sys (Call.read_file (at ++ₛ "/cmdline.txt"))
    dir ← gets (λ w. w.boot at)
    rewrite_cmdline at new_root_dev (if failed then none else dir.cmdline)

  -- On a board without U-Boot, the root of the kernel's command line follows the slot.
  unfoldable pub direct_boot : String → String → M (Unit {0})
  direct_boot at part_num = do
    works ← u_boot_env_works
    let new_root_dev = get_device_for_part_num sys part_num
    then_if (not works && not (is_empty new_root_dev)) (update_boot_cmdline at new_root_dev)

  -- Writes the slot to the boot partition, if there is one; true is an error.
  unfoldable pub sync_to : String → Option String × Bool → M Bool
  sync_to part_num (none, tried) = pure tried
  sync_to part_num (some at, tried) = do
    done ← write_slot_byte at part_num
    if not done then pure true else do direct_boot at part_num; pure false

  unfoldable pub sync_boot_slot_to_boot_partition : String → M Bool
  sync_boot_slot_to_boot_partition part_num = boot_partition >>= sync_to part_num
