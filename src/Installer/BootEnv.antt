-- ===== src/Installer/BootEnv.antt =====
-- installer/bootenv.go `BootVars` and `BootEnvReadWriter`: what the two root file systems use of a
-- boot environment.
use ota_pulse.Prelude.{String, Bool, Option, List}
use ota_pulse.Installer.World.{M}

abbrev pub BootVars : Type 0
BootVars = List (String × String)

-- The last two are the methods that are looked for by a type assertion; an environment without them
-- does nothing there. No value of `read_env`, and true of `write_env`, is an error.
pub record BootEnv : Type 0 where
  pub read_env : List String → M (Option BootVars)
  pub write_env : BootVars → M Bool
  pub reconcile_to_booted_slot : M (Unit {0})
  pub clear_direct_boot_backup : M (Unit {0})
