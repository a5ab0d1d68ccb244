-- ===== src/Installer/DualRootfs/Shown.antt =====
-- installer/dual_rootfs_device.go on a boot environment in files, as its specification sees it.
use Prim.Native.String.{◌++◌ as ◌++ₛ◌}
use ota_pulse.Prelude.{ℕ, String, Bool, true, false, Option, some, [], ◌∷◌, ◌≡◌, refl, ◌<◌, lookup}
use ota_pulse.Prelude.Int.{pos}
use ota_pulse.Installer.Text.{
  format_int, cutoff, is_empty, trailing_digits, trim_space, trim_left, trim_right, is_space,
}
use ota_pulse.Installer.Text.Laws.{format_int-IsPlain, is_empty-format_int, trim_space-IsPlain}
use ota_pulse.Installer.World.{Call, World, ◌>>=◌, pure, gets, ask, System}
use ota_pulse.Installer.BootEnv.{BootEnv}
use ota_pulse.Installer.FileEnv.Files.{
  upgrade_avail_file, mender_boot_part_file, content_of, read_file,
}
use ota_pulse.Installer.FileEnv.Vars.{
  var_of, read_env, read_var, read_as, no_error, has_value, read_mender_boot_part,
}
use ota_pulse.Installer.FileEnv.Reconcile.{file_boot_env}
use ota_pulse.Installer.FileEnv.Reliable.{IsReliable}
use ota_pulse.Installer.Partitions.{Mounted}
use ota_pulse.Installer.DualRootfs.{has_update, has_update_in}
use ota_pulse.Installer.DualRootfs.TwoSlots.{TwoSlots}

-- A device with this partition number at the end of its path.
pub record IsDevice (path : String) (n : ℕ) : Type 0 where
  pub known : is_empty path ≡ false
  pub number : trailing_digits path ≡ format_int 10 (pos n)
  pub small : n < cutoff

abbrev pub bit : Bool → String
bit true = "1"
bit false = "0"

-- What the devices and the two files say of the slots.
pub record Shows (active inactive : String) (part flag : Option String) (s : TwoSlots)
    : Type 0 where
  pub runs : IsDevice active s.running
  pub waits : IsDevice inactive s.other
  pub names : part ≡ some (format_int 10 (pos s.target) ++ₛ "\n")
  pub small : s.target < cutoff
  pub marks : flag ≡ some (bit s.pending ++ₛ "\n")

abbrev pub Refines : TwoSlots → World → Type 0
Refines s w =
    Shows w.active w.inactive (w.files mender_boot_part_file) (w.files upgrade_avail_file) s

module _ (sys : System) (r : IsReliable sys) (mounted : Mounted) where
  abbrev env : BootEnv
  env = file_boot_env sys

  pub has_update-reads :
      (w : World) (b : Bool)
      → w.files upgrade_avail_file ≡ some (bit b ++ₛ "\n")
      → has_update sys mounted env w
        ≡ (some b, record w { trace = Call.read_file upgrade_avail_file ∷ w.trace })
  unfolding has_update ◌>>=◌ ask gets pure read_env read_var read_as var_of read_file content_of
      no_error has_update_in lookup trim_space trim_left trim_right is_space
  has_update-reads w true e =
      rw (r.no_failure (Call.read_file upgrade_avail_file ∷ w.trace), e) refl
  has_update-reads w false e =
      rw (r.no_failure (Call.read_file upgrade_avail_file ∷ w.trace), e) refl

  pub part_reads :
      (w : World) (n : ℕ)
      → w.files mender_boot_part_file ≡ some (format_int 10 (pos n) ++ₛ "\n")
      → env.read_env ("mender_boot_part" ∷ []) w ≡ (
        some (("mender_boot_part", format_int 10 (pos n)) ∷ []),
        record w { trace = Call.read_file mender_boot_part_file ∷ w.trace },
      )
  unfolding ◌>>=◌ ask gets pure read_env read_var read_as var_of read_mender_boot_part read_file
      content_of has_value
  part_reads w n e =
      rw
        (
          r.no_failure (Call.read_file mender_boot_part_file ∷ w.trace),
          e,
          trim_space-IsPlain (format_int-IsPlain n),
          is_empty-format_int n,
        )
        refl
