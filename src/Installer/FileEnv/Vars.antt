-- ===== src/Installer/FileEnv/Vars.antt =====
-- installer/file_bootenv.go: the variables of the boot environment, and the order of their writes.
use ota_pulse.Prelude.{
  String, Bool, true, false, not, ◌&&◌, Option, none, some, List, [], ◌∷◌, ◌=ₛ◌, if◌then◌else◌,
  contains, lookup, keep,
}
use ota_pulse.Prelude.Int.{ℤ}
use ota_pulse.Installer.Text.{is_empty, parse_int, atoi, format_int}
use ota_pulse.Installer.World.{M, ◌>>=◌, ◌>>◌, pure, then_if, System}
use ota_pulse.Installer.BootEnv.{BootVars}
use ota_pulse.Installer.FileEnv.Files.{
  slot_file, boot_count_file, upgrade_avail_file, mender_boot_part_file, read_file, write_file,
}
use ota_pulse.Installer.FileEnv.Slots.{
  slot_to_partition_number, partition_number_to_slot, detect_current_partition_number,
}
use ota_pulse.Installer.FileEnv.BootPartition.{sync_boot_slot_to_boot_partition}

-- What `writeVar` and `readVar` tell apart.
pub data Var : Type 0 where
  boot_part boot_part_hex upgrade_available bootcount check_canary canary unknown : Var

unfoldable pub var_of : String → Var
var_of name =
    if name =ₛ "mender_boot_part"
    then Var.boot_part
    else if name =ₛ "mender_boot_part_hex"
    then Var.boot_part_hex
    else if name =ₛ "upgrade_available"
    then Var.upgrade_available
    else if name =ₛ "bootcount"
    then Var.bootcount
    else if name =ₛ "mender_check_saveenv_canary"
    then Var.check_canary
    else if name =ₛ "mender_saveenv_canary"
    then Var.canary
    else Var.unknown

abbrev pub write_order : List String
write_order = "mender_boot_part" ∷ "mender_boot_part_hex" ∷ "bootcount" ∷ "upgrade_available" ∷ []

-- A value that was read, unless there was an error.
unfoldable pub no_error : String × Bool → Option String
no_error (value, failed) = if failed then none else some value

-- A value that was read and is not empty.
unfoldable pub has_value : String × Bool → Bool
has_value (value, failed) = not failed && not (is_empty value)

abbrev pub hex_of_number : Option ℤ → Option String
hex_of_number none = none
hex_of_number (some n) = some (format_int 16 n)

unfoldable pub hex_of_text : Option String → Option String
hex_of_text none = none
hex_of_text (some part) = hex_of_number (atoi part)

module _ (sys : System) where
  unfoldable pub read_mender_boot_part : M (Option String)
  read_mender_boot_part = do
    part ← read_file sys mender_boot_part_file ""
    if has_value part then pure (some part.0) else do
      slot ← read_file sys slot_file ""
      if not (has_value slot)
          then detect_current_partition_number sys
          else pure (slot_to_partition_number sys slot.0)

  -- A failure to write the slot is only logged; true is an error.
  unfoldable pub write_mender_boot_part : String → M Bool
  write_mender_boot_part part_num = do
    failed ← write_file sys mender_boot_part_file part_num
    if failed then pure true else do
      let slot = partition_number_to_slot sys part_num
      then_if (not (is_empty slot)) do write_file sys slot_file slot; pure tt
      sync_boot_slot_to_boot_partition sys part_num

  unfoldable pub read_as : Var → M (Option String)
  read_as Var.boot_part = read_mender_boot_part
  read_as Var.boot_part_hex = do part ← read_mender_boot_part; pure (hex_of_text part)
  read_as Var.upgrade_available = do
    value ← read_file sys upgrade_avail_file "0"
    pure (no_error value)
  read_as Var.bootcount = do value ← read_file sys boot_count_file "0"; pure (no_error value)
  read_as Var.check_canary = pure (some "0")
  read_as Var.canary = pure (some "1")
  read_as Var.unknown = pure none

  unfoldable pub read_var : String → M (Option String)
  read_var name = read_as (var_of name)

  abbrev pub write_number : Option ℤ → M Bool
  write_number none = pure true
  write_number (some n) = write_mender_boot_part (format_int 10 n)

  -- True is an error; a variable that is not known is ignored.
  unfoldable pub write_as : Var → String → M Bool
  write_as Var.boot_part value = write_mender_boot_part value
  write_as Var.boot_part_hex value = write_number (parse_int 16 value)
  write_as Var.upgrade_available value = write_file sys upgrade_avail_file value
  write_as Var.bootcount value = write_file sys boot_count_file value
  write_as _ value = pure false

  unfoldable pub write_var : String → String → M Bool
  write_var name value = write_as (var_of name) value

  -- A variable that cannot be read is left out.
  unfoldable pub read_env : List String → M BootVars
  read_env [] = pure []
  read_env (name ∷ names) = do
    value ← read_var name
    rest ← read_env names
    pure (elim value [ none ↦ rest | some v ↦ (name, v) ∷ rest ])

  unfoldable pub write_if : String → Option String → M Bool
  write_if name none = pure false
  write_if name (some value) = write_var name value

  -- Writes the variables with these names, in this order, up to the first error.
  unfoldable pub write_named : BootVars → List String → M Bool
  write_named vars [] = pure false
  write_named vars (name ∷ names) = do
    failed ← write_if name (lookup name vars)
    if failed then pure true else write_named vars names

  unfoldable pub write_all : BootVars → M Bool
  write_all [] = pure false
  write_all ((name, value) ∷ vars) = do
    failed ← write_var name value
    if failed then pure true else write_all vars

  -- `WriteEnv`. Go's order on the keys that are not named is any; none of them writes.
  unfoldable pub write_env : BootVars → M Bool
  write_env vars = do
    failed ← write_named vars write_order
    if failed then pure true else write_all (keep (λ var. not (contains write_order var.0)) vars)
