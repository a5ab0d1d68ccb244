-- ===== src/Installer/Partitions.antt =====
-- installer/partitions.go: which of the two partitions is active.
use ota_pulse.Prelude.{
  String, Bool, true, false, not, ◌&&◌, ◌||◌, Option, none, some, List, [], ◌∷◌, ◌=ₛ◌, ◌==◌,
  if◌then◌else◌, lookup,
}
use Prim.Native.Char.{Char, code}
use Prim.Native.String.{slice, len}
use text.Mathlib.Text.{starts_with}
use ota_pulse.Installer.Text.{is_empty, has_suffix, lines, split_where}
use ota_pulse.Installer.World.{Call, M, ◌>>=◌, ◌>>◌, pure, gets, modify, ask, System}
use ota_pulse.Installer.BootEnv.{BootEnv, BootVars}

-- What partitions.go asks of the system beside that: the output of `mount`, the number of the device
-- that holds "/", the devices in /dev, and the number of a device file.
pub record Mounted : Type 0 where
  pub mount_output : List Call → Option String
  pub root_device : List Call → Option String
  pub all_devices : List Call → Option (List String)
  pub device_id : List Call → String → Option String

unfoldable pub is_space_char : Char → Bool
is_space_char c = code c == b' '

-- The first line with the root as its third word, and its first.
unfoldable pub root_candidate : List String → String
root_candidate [] = ""
root_candidate (line ∷ rest) =
    let found = root_candidate rest in
    elim (split_where is_space_char line) [
      | [] ↦ found
      | device ∷ more ↦ elim more [
        | [] ↦ found
        | _ ∷ more' ↦ elim more' [ [] ↦ found | point ∷ _ ↦ if point =ₛ "/" then device else found ]
      ]
    ]

unfoldable pub get_root_candidate_from_mount : String → String
get_root_candidate_from_mount text = root_candidate (lines text)

-- A variable that is missing is the empty text, which is the end of every path.
unfoldable pub check_boot_env_and_root_partition_match : String → String → Bool
check_boot_env_and_root_partition_match boot_part_num root_part = has_suffix root_part boot_part_num

abbrev pub or_empty : Option String → String
or_empty none = ""
or_empty (some value) = value

unfoldable pub boot_part_of : Option BootVars → Option String
boot_part_of none = none
boot_part_of (some vars) = some (or_empty (lookup "mender_boot_part" vars))

unfoldable pub lacks_slash : String → Bool
lacks_slash String.[] = true
lacks_slash (String.◌∷◌ c s) = not (code c == b'/') && lacks_slash s

-- A path of one name under a directory, which is given with the slash at its end.
abbrev pub in_dir : String → String → Bool
in_dir dir path = starts_with path dir && lacks_slash (slice path (len dir) (len path))

-- Links are followed under these names only.
abbrev pub is_resolved : String → Bool
is_resolved path =
    path =ₛ "/dev/root"
    || in_dir "/dev/disk/by-partuuid/" path
    || in_dir "/dev/disk/by-partlabel/" path

module _ (sys : System) (mounted : Mounted) (env : BootEnv) where
  abbrev resolved : String → Option String → String
  resolved path none = path
  resolved path (some real) = if is_resolved path then real else path

  unfoldable pub maybe_resolve_link : String → String
  maybe_resolve_link path = resolved path (sys.resolve path)

  -- `NewDualRootfsDevice` resolves the two configured partitions.
  abbrev pub resolved_part_a : String
  resolved_part_a = maybe_resolve_link sys.rootfs_part_a

  abbrev pub resolved_part_b : String
  resolved_part_b = maybe_resolve_link sys.rootfs_part_b

  abbrev same_id : Option String → String → Bool
  same_id none root = false
  same_id (some id) root = id =ₛ root

  unfoldable pub is_mounted_root : String → String → M Bool
  is_mounted_root dev root =
      ask (Call.stat_device dev) (λ calls. same_id (mounted.device_id calls dev) root)

  unfoldable pub get_root_from_mounted_devices : String → List String → M (Option String)
  get_root_from_mounted_devices root [] = pure none
  get_root_from_mounted_devices root (device ∷ devices) = do
    found ← is_mounted_root device root
    if found then pure (some device) else get_root_from_mounted_devices root devices

  unfoldable pub get_boot_env_active_partition : M (Option String)
  get_boot_env_active_partition = do
    vars ← env.read_env ("mender_boot_part" ∷ [])
    pure (boot_part_of vars)

  unfoldable pub set_active : String → M (Option String)
  set_active part = do modify (λ w. record w { active = part }); pure (some part)

  -- Without a device that holds the root, the configuration and the boot environment decide.
  unfoldable pub from_configuration : String → M (Option String)
  from_configuration boot_part =
      if check_boot_env_and_root_partition_match boot_part resolved_part_a
      then set_active resolved_part_a
      else (if check_boot_env_and_root_partition_match boot_part resolved_part_b
          then set_active resolved_part_b
          else pure none)

  abbrev pub matching : String → Option String → M (Option String)
  matching boot_part none = from_configuration boot_part
  matching boot_part (some part) =
      if check_boot_env_and_root_partition_match boot_part part then set_active part else pure none

  abbrev pub among_devices : String → String → Option (List String) → M (Option String)
  among_devices boot_part root none = pure none
  among_devices boot_part root (some devices) =
      get_root_from_mounted_devices root devices >>= matching boot_part

  unfoldable pub from_devices : String → String → M (Option String)
  from_devices boot_part root = do
    devices ← ask (Call.stat_device "/dev") mounted.all_devices
    among_devices boot_part root devices

  -- The device that `mount` names for the root is taken, or the one that holds it by its number.
  unfoldable pub from_candidate : String → String → Option String → M (Option String)
  from_candidate candidate root none = pure none
  from_candidate candidate root (some boot_part) =
      if is_empty candidate then from_devices boot_part root else do
        let part = maybe_resolve_link candidate
        found ← is_mounted_root part root
        if found || check_boot_env_and_root_partition_match boot_part part
            then set_active part
            else from_devices boot_part root

  abbrev pub with_root_device : String → Option String → M (Option String)
  with_root_device output none = pure none
  with_root_device output (some root) =
      get_boot_env_active_partition >>= from_candidate (get_root_candidate_from_mount output) root

  abbrev pub with_mount_output : Option String → M (Option String)
  with_mount_output none = pure none
  with_mount_output (some output) =
      ask (Call.stat_device "/") mounted.root_device >>= with_root_device output

  unfoldable pub get_and_cache_active_partition : M (Option String)
  get_and_cache_active_partition =
      ask (Call.command "mount" []) mounted.mount_output >>= with_mount_output

  unfoldable pub get_active : M (Option String)
  get_active = do
    active ← gets (λ w. w.active)
    if is_empty active then get_and_cache_active_partition else pure (some active)

  unfoldable pub set_inactive : String → M (Option String)
  set_inactive part = do modify (λ w. record w { inactive = part }); pure (some part)

  abbrev pub other_than : Option String → M (Option String)
  other_than none = pure none
  other_than (some active) =
      if maybe_resolve_link active =ₛ resolved_part_a
      then set_inactive resolved_part_b
      else (if maybe_resolve_link active =ₛ resolved_part_b
          then set_inactive resolved_part_a
          else pure none)

  unfoldable pub get_and_cache_inactive_partition : M (Option String)
  get_and_cache_inactive_partition =
      if is_empty resolved_part_a || is_empty resolved_part_b || resolved_part_a =ₛ resolved_part_b
      then pure none
      else get_active >>= other_than

  unfoldable pub get_inactive : M (Option String)
  get_inactive = do
    inactive ← gets (λ w. w.inactive)
    if is_empty inactive then get_and_cache_inactive_partition else pure (some inactive)
