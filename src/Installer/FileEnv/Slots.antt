-- ===== src/Installer/FileEnv/Slots.antt =====
-- installer/file_bootenv.go: slots, partition numbers and the partition that is mounted.
use ota_pulse.Prelude.{String, ◌||◌, Option, none, some, List, [], ◌∷◌, ◌=ₛ◌, if◌then◌else◌}
use ota_pulse.Installer.Text.{trim_space, extract_partition_number, lines, fields}
use ota_pulse.Installer.World.{Call, M, ◌>>=◌, pure, ask, System}

-- The line of the mount table for the root, and its device.
unfoldable pub root_device : List String → Option String
root_device [] = none
root_device (line ∷ rest) =
    let found = root_device rest in
    elim (fields line) [
      | [] ↦ found
      | device ∷ more ↦ elim more [
        | [] ↦ found
        | point ∷ _ ↦ if point =ₛ "/" then some device else found
      ]
    ]

module _ (sys : System) where
  abbrev or_itself : String → Option String → String
  or_itself path none = path
  or_itself path (some real) = real

  -- filepath.EvalSymlinks, or the path itself where that fails
  abbrev pub real_path : String → String
  real_path path = or_itself path (sys.resolve path)

  -- `slotToPartitionNumber`; of all letters only "A" and "B" become "a" and "b".
  unfoldable pub slot_to_partition_number : String → Option String
  slot_to_partition_number slot =
      let s = trim_space slot in
      if s =ₛ "a" || s =ₛ "A"
      then some (extract_partition_number sys.rootfs_part_a)
      else if s =ₛ "b" || s =ₛ "B"
      then some (extract_partition_number sys.rootfs_part_b)
      else none

  unfoldable pub partition_number_to_slot : String → String
  partition_number_to_slot part_num =
      if part_num =ₛ extract_partition_number sys.rootfs_part_a
      then "a"
      else if part_num =ₛ extract_partition_number sys.rootfs_part_b
      then "b"
      else ""

  unfoldable pub get_device_for_part_num : String → String
  get_device_for_part_num part_num =
      if extract_partition_number sys.rootfs_part_a =ₛ part_num
      then sys.rootfs_part_a
      else if extract_partition_number sys.rootfs_part_b =ₛ part_num
      then sys.rootfs_part_b
      else ""

  abbrev number_of_root : String → String
  number_of_root device =
      extract_partition_number (if device =ₛ "/dev/root" then real_path device else device)

  unfoldable pub current_number : Option String → Option String
  current_number none = none
  current_number (some mounts) = elim (root_device (lines mounts)) [
    | none ↦ none
    | some device ↦ some (number_of_root device)
  ]

  unfoldable pub detect_current_partition_number : M (Option String)
  detect_current_partition_number = do
    mounts ← ask Call.read_mounts sys.mounts
    pure (current_number mounts)
