-- ===== src/Installer/FileEnv/Kept.antt =====
-- installer/file_bootenv.go: what the search for the boot partition and the writes to it keep.
use Prim.Native.String.{◌++◌ as ◌++ₛ◌}
use ota_pulse.Prelude.{
  String, Bool, true, false, not, ◌&&◌, ◌||◌, Option, none, some, List, [], ◌∷◌, map, any,
  if◌then◌else◌,
}
use ota_pulse.Installer.Text.{is_empty, fields, trim_space}
use ota_pulse.Installer.World.{Call, World, BootDir, System, set_boot, left_by, is_written}
use ota_pulse.Installer.Triple.{
  Triple, After, IsCallFree, bind-Triple, then-Triple, pure-Triple, gets-Triple, modify-Triple,
  ask-Triple, if-Triple, then_if-Triple,
}
use ota_pulse.Installer.FileEnv.Slots.{get_device_for_part_num}
use ota_pulse.Installer.FileEnv.BootPartition.{
  boot_mount_points, mount_lines, mounted_point, boot_devices, mount_first, u_boot_env_works,
  device_already_mounted, boot_partition, or_mount, write_boot, keep_cmdline, rewrite_cmdline,
  update_boot_cmdline, direct_boot, sync_to, is_none, is_root, with_root, join_words,
}

-- What a write to the command line, or to its copy, does not touch.
abbrev pub IsCmdlineFree : (World → Type 0) → Type 0
IsCmdlineFree P =
    (w : World) (at : String) (c d : Option String)
    → P w
    → P (set_boot at (record (w.boot at) { cmdline = c; cmdline_prev = d }) w)

abbrev pub IsByteFree : (World → Type 0) → Type 0
IsByteFree P =
    (w : World) (at : String) (c : Option String)
    → P w
    → P (set_boot at (record (w.boot at) { mender_boot_part = c }) w)

module _ (sys : System) {P : World → Type 0} (free : IsCallFree P) where
  pub mount_first-keeps :
      (table devices : List String) (tried : Bool)
      → Triple P (mount_first sys table devices tried) (After P)
  unfolding mount_first
  mount_first-keeps table [] tried = pure-Triple (none, tried) (λ w p. p)
  mount_first-keeps table (dev ∷ devices) tried =
      if-Triple (not (sys.exists dev) || device_already_mounted sys dev table)
        (mount_first-keeps table devices tried)
        (bind-Triple (After P) (ask-Triple (Call.make_dir "/mnt/boot") sys.fails free) (λ no_dir.
          if-Triple no_dir (mount_first-keeps table devices true) (
            bind-Triple (After P)
              (ask-Triple (Call.command "mount" (dev ∷ "/mnt/boot" ∷ [])) sys.fails free)
              (λ failed.
                if-Triple failed (mount_first-keeps table devices true)
                  (pure-Triple (some "/mnt/boot", true) (λ w p. p))))))

  or_mount-keeps :
      (table : List String) (point : Option String) → Triple P (or_mount sys table point) (After P)
  or_mount-keeps table (some mount) = pure-Triple (some mount, true) (λ w p. p)
  or_mount-keeps table none = mount_first-keeps table boot_devices false

  pub boot_partition-keeps : Triple P (boot_partition sys) (After P)
  unfolding boot_partition
  boot_partition-keeps =
      bind-Triple (After P) (ask-Triple Call.read_mounts sys.mounts free) (λ mounts.
        or_mount-keeps (mount_lines mounts)
          (mounted_point sys (mount_lines mounts) boot_mount_points))

  pub u_boot_env_works-keeps : Triple P (u_boot_env_works sys) (After P)
  unfolding u_boot_env_works
  u_boot_env_works-keeps =
      if-Triple (not (sys.in_path "fw_printenv")) (pure-Triple false (λ w p. p)) (
        bind-Triple (After P) (ask-Triple (Call.command "fw_printenv" []) sys.fails free)
          (λ failed. pure-Triple (not failed) (λ w p. p)))

  write_boot-keeps :
      (at name content : String) (get : BootDir → Option String)
      (put : Option String → BootDir → BootDir)
      → ((w : World) (c : Option String) → P w → P (set_boot at (put c (w.boot at)) w))
      → Triple P (write_boot sys at name content get put) (After P)
  unfolding write_boot
  write_boot-keeps at name content get put kept =
      bind-Triple (After P) (ask-Triple (Call.write_file name content) sys.write_result free) (λ r.
        then-Triple P
          (modify-Triple
            (λ w. set_boot at (put (left_by r content (get (w.boot at))) (w.boot at)) w)
            (λ w p. kept w (left_by r content (get (w.boot at))) p))
          (pure-Triple (is_written r) (λ w p. p)))

  module _ (cmd : IsCmdlineFree P) where
    keep_cmdline-keeps : (at content : String) → Triple P (keep_cmdline sys at content) (After P)
    unfolding keep_cmdline
    keep_cmdline-keeps at content =
        bind-Triple (After P)
          (ask-Triple (Call.stat_file (at ++ₛ "/cmdline_prev.txt")) sys.fails free)
          (λ unknown. bind-Triple (After P) (gets-Triple (λ w. w.boot at) (λ w p. p)) (λ dir.
            then_if-Triple (not unknown && is_none dir.cmdline_prev) (
              then-Triple P
                (write_boot-keeps at (at ++ₛ "/cmdline_prev.txt") content (λ d. d.cmdline_prev)
                  (λ c d. record d { cmdline_prev = c })
                  (λ w c p. cmd w at (w.boot at).cmdline c p))
                (pure-Triple tt (λ w p. p)))))

    rewrite_cmdline-keeps :
        (at new_root_dev : String) (text : Option String)
        → Triple P (rewrite_cmdline sys at new_root_dev text) (After P)
    unfolding rewrite_cmdline
    rewrite_cmdline-keeps at new_root_dev none = pure-Triple tt (λ w p. p)
    rewrite_cmdline-keeps at new_root_dev (some content) =
        then_if-Triple (any is_root (fields (trim_space content))) (
          then-Triple P (keep_cmdline-keeps at content) (
            then-Triple P
              (write_boot-keeps at (at ++ₛ "/cmdline.txt")
                (join_words (map (with_root new_root_dev) (fields (trim_space content))) ++ₛ "\n")
                (λ d. d.cmdline) (λ c d. record d { cmdline = c })
                (λ w c p. cmd w at c (w.boot at).cmdline_prev p))
              (pure-Triple tt (λ w p. p))))

    update_boot_cmdline-keeps :
        (at new_root_dev : String) → Triple P (update_boot_cmdline sys at new_root_dev) (After P)
    unfolding update_boot_cmdline
    update_boot_cmdline-keeps at new_root_dev =
        bind-Triple (After P) (ask-Triple (Call.read_file (at ++ₛ "/cmdline.txt")) sys.fails free)
          (λ failed.
            bind-Triple (After P) (gets-Triple (λ w. w.boot at) (λ w p. p))
              (λ dir. rewrite_cmdline-keeps at new_root_dev (if failed then none else dir.cmdline)))

    pub direct_boot-keeps :
        (at part_num : String) → Triple P (direct_boot sys at part_num) (After P)
    unfolding direct_boot
    direct_boot-keeps at part_num = bind-Triple (After P) u_boot_env_works-keeps (λ works.
        then_if-Triple (not works && not (is_empty (get_device_for_part_num sys part_num)))
          (update_boot_cmdline-keeps at (get_device_for_part_num sys part_num)))

    pub sync_to-keeps :
        IsByteFree P
        → (part_num : String) (found : Option String × Bool)
        → Triple P (sync_to sys part_num found) (After P)
    unfolding sync_to
    sync_to-keeps byte part_num (none, tried) = pure-Triple tried (λ w p. p)
    sync_to-keeps byte part_num (some at, tried) =
        bind-Triple (After P)
          (write_boot-keeps at (at ++ₛ "/mender_boot_part") (part_num ++ₛ "\n")
            (λ d. d.mender_boot_part) (λ c d. record d { mender_boot_part = c })
            (λ w c p. byte w at c p))
          (λ done.
            if-Triple (not done) (pure-Triple true (λ w p. p))
              (then-Triple P (direct_boot-keeps at part_num) (pure-Triple false (λ w p. p))))
