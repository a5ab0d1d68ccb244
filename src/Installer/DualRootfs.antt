-- ===== src/Installer/DualRootfs.antt =====
-- installer/dual_rootfs_device.go: the update of the partition that is not running, by way of the boot
-- environment.
pub mod Announced
pub mod Install
pub mod TwoSlots
pub mod Shown
pub mod Sets
pub mod Meets
pub mod Refines
pub mod Boots
pub mod Reconciled
use Prim.Native.String.{◌++◌ as ◌++ₛ◌}
use ota_pulse.Prelude.{
  ℕ, zero, suc, String, Bool, true, false, not, Option, none, some, List, [], ◌∷◌, ltb, leb, ◌=ₛ◌,
  if◌then◌else◌, lookup,
}
use ota_pulse.Prelude.Int.{ℤ, pos, negsuc, ltb_ℤ}
use ota_pulse.Installer.Text.{
  is_empty, extract_partition_number, trailing_digits, atoi, format_upper_hex,
}
use ota_pulse.Installer.World.{Call, World, M, ◌>>=◌, ◌>>◌, pure, then_if, System, try}
use ota_pulse.Installer.BootEnv.{BootVars, BootEnv}
use ota_pulse.Installer.Partitions.{
  resolved_part_a, resolved_part_b, Mounted, get_active, get_inactive, or_empty,
}

abbrev pub default_max_boot_retries : ℤ
default_max_boot_retries = pos 3

abbrev pub switch_boot_slot_script : String
switch_boot_slot_script = "/usr/sbin/switch-boot-slot.sh"

-- The digits at the end of the path, and the number in hexadecimal.
abbrev numbers : String → Option ℤ → Option (String × String)
numbers dec none = none
numbers dec (some (pos n)) = some (dec, format_upper_hex n)
numbers dec (some (negsuc n)) = some (dec, "-" ++ₛ format_upper_hex (suc n))

unfoldable pub get_partition_impl : String → Option (String × String)
get_partition_impl partition = let dec = trailing_digits partition in numbers dec (atoi dec)

abbrev pub numbers_of : Option String → Option (String × String)
numbers_of none = none
numbers_of (some partition) = get_partition_impl partition

-- The variables that the steps of an update write.
abbrev pub install_vars : String × String → BootVars
install_vars (part, hex) =
    ("upgrade_available", "1")
    ∷ ("mender_boot_part", part)
    ∷ ("mender_boot_part_hex", hex)
    ∷ ("bootcount", "0")
    ∷ []

abbrev pub rollback_vars : String × String → BootVars
rollback_vars (part, hex) =
    ("mender_boot_part", part) ∷ ("mender_boot_part_hex", hex) ∷ ("upgrade_available", "0") ∷ []

abbrev pub commit_vars : BootVars
commit_vars = ("upgrade_available", "0") ∷ []

abbrev pub fallback_vars : BootVars
fallback_vars = ("upgrade_available", "0") ∷ ("bootcount", "0") ∷ []

-- The count of the boots; what cannot be parsed counts as 0.
abbrev parsed : Option ℤ → ℤ
parsed none = pos 0
parsed (some n) = n

unfoldable pub boot_count : Option String → ℤ
boot_count none = pos 0
boot_count (some text) = if is_empty text then pos 0 else parsed (atoi text)

-- The flag as `HasUpdate` reads it, from the variables if there was no error.
unfoldable pub has_update_in : Option BootVars → Option Bool
has_update_in none = none
has_update_in (some vars) = some (or_empty (lookup "upgrade_available" vars) =ₛ "1")

-- `VerifyReboot` and `VerifyRollbackReboot`, given the flag; true is an error.
abbrev pub not_updated : Option Bool → Bool
not_updated none = true
not_updated (some has_update) = not has_update

abbrev pub still_updated : Option Bool → Bool
still_updated none = true
still_updated (some has_update) = has_update

module _ (sys : System) (mounted : Mounted) (env : BootEnv) where
  unfoldable pub get_inactive_partition : M (Option (String × String))
  get_inactive_partition = do partition ← get_inactive sys mounted env; pure (numbers_of partition)

  unfoldable pub get_active_partition : M (Option (String × String))
  get_active_partition = do partition ← get_active sys mounted env; pure (numbers_of partition)

  unfoldable pub has_update : M (Option Bool)
  has_update = do vars ← env.read_env ("upgrade_available" ∷ []); pure (has_update_in vars)

  -- `StoreUpdate`, with the block device and the copy as calls; true is an error.
  abbrev pub store_to : Option String → M Bool
  store_to none = pure true
  store_to (some device) = do
    not_open ← try sys (Call.open_device device)
    if not_open then pure true else do
      not_copied ← try sys (Call.copy_image device)
      not_closed ← try sys (Call.close_device device)
      pure (if not_copied then true else not_closed)

  unfoldable pub store_update : M Bool
  store_update = get_inactive sys mounted env >>= store_to

  abbrev pub slot_for : String → String
  slot_for partition_number =
      if partition_number =ₛ extract_partition_number (resolved_part_a sys mounted env)
      then "a"
      else "b"

  -- The script has the partitions in its environment. A board without it has no error.
  unfoldable pub switch_boot_slot : String → M Bool
  switch_boot_slot partition_number =
      if not (sys.exists switch_boot_slot_script)
      then pure false
      else try sys (
          Call.command switch_boot_slot_script (
            slot_for partition_number
            ∷ ("ROOTFS_A_PARTITION=" ++ₛ resolved_part_a sys mounted env)
            ∷ ("ROOTFS_B_PARTITION=" ++ₛ resolved_part_b sys mounted env)
            ∷ []))

  -- The flag is taken back if the script fails.
  abbrev pub install_to : Option (String × String) → M Bool
  install_to none = pure true
  install_to (some inactive) = do
    failed ← env.write_env (install_vars inactive)
    if failed then pure true else do
      not_switched ← switch_boot_slot inactive.0
      if not not_switched then pure false else do env.write_env commit_vars; pure true

  unfoldable pub install_update : M Bool
  install_update = get_inactive_partition >>= install_to

  abbrev pub roll_back_to : Option (String × String) → M Bool
  roll_back_to none = pure true
  roll_back_to (some next) = env.write_env (rollback_vars next)

  -- Before the reboot the boot partition is not the active one, and goes back to it.
  abbrev pub roll_back_from : String → Option (String × String) → M Bool
  roll_back_from value none = pure true
  roll_back_from value (some active) =
      if not (value =ₛ active.0)
      then roll_back_to (some active)
      else get_inactive_partition >>= roll_back_to

  abbrev pub boot_part_in : Option BootVars → Option String
  boot_part_in none = none
  boot_part_in (some vars) = lookup "mender_boot_part" vars

  abbrev pub roll_back_with : Option String → M Bool
  roll_back_with none = pure true
  roll_back_with (some value) = get_active_partition >>= roll_back_from value

  abbrev pub roll_back_if : Option Bool → M Bool
  roll_back_if none = pure true
  roll_back_if (some false) = pure false
  roll_back_if (some true) = do
    vars ← env.read_env ("mender_boot_part" ∷ [])
    roll_back_with (boot_part_in vars)

  unfoldable pub rollback : M Bool
  rollback = has_update >>= roll_back_if

  abbrev pub commit_if : Option Bool → M Bool
  commit_if none = pure true
  commit_if (some false) = pure true
  commit_if (some true) = do
    failed ← env.write_env commit_vars
    if failed then pure true else do env.clear_direct_boot_backup; pure false

  unfoldable pub commit_update : M Bool
  commit_update = has_update >>= commit_if

  unfoldable pub verify_reboot : M Bool
  verify_reboot = do flag ← has_update; pure (not_updated flag)

  unfoldable pub verify_rollback_reboot : M Bool
  verify_rollback_reboot = do flag ← has_update; pure (still_updated flag)

  abbrev pub fall_back_if : Option BootVars → M (Unit {0})
  fall_back_if none = pure tt
  fall_back_if (some vars) =
      if not (or_empty (lookup "upgrade_available" vars) =ₛ "1")
      then env.reconcile_to_booted_slot
      else then_if (not (ltb_ℤ (boot_count (lookup "bootcount" vars)) default_max_boot_retries))
          do env.write_env fallback_vars; pure tt

  unfoldable pub handle_boot_count_fallback : M (Unit {0})
  handle_boot_count_fallback =
      env.read_env ("upgrade_available" ∷ "bootcount" ∷ []) >>= fall_back_if
