-- ===== src/Installer/DualRootfs/Announced.antt =====
-- installer/dual_rootfs_device.go `InstallUpdate` on a boot environment in files: the order of its
-- writes of the variables.
use ota_pulse.Prelude.{
  ℕ, String, Bool, true, false, ◌≡◌, ◌≢◌, refl, ◌<◌, if◌then◌else◌, arith, lookup, contains, keep,
}
use ota_pulse.Prelude.Int.{pos}
use ota_pulse.Installer.Text.{format_int, format_upper_hex, cutoff}
use ota_pulse.Installer.Text.Laws.{parse_int-format_upper_hex}
use ota_pulse.Installer.World.{World, M, pure, System, set_file, set_boot}
use ota_pulse.Installer.Triple.{
  Triple, After, bind-Triple, pure-Triple, if-Triple, weaken-Triple, both-Triple,
}
use ota_pulse.Installer.FileEnv.Files.{upgrade_avail_file, boot_count_file, content_of}
use ota_pulse.Installer.FileEnv.Vars.{
  write_mender_boot_part, write_env, write_named, write_all, write_if, write_var, write_as, var_of,
}
use ota_pulse.Installer.FileEnv.Writes.{Has, write_file-keeps, write_file-Leaves}
use ota_pulse.Installer.FileEnv.Synced.{
  IsSynced, HasBootPartition, write_mender_boot_part-keeps, write_mender_boot_part-Leaves,
}
use ota_pulse.Installer.DualRootfs.{install_vars}

-- What the flag reads as, where it can be read.
abbrev pub flag : World → String
flag w = (content_of "0" false (w.files upgrade_avail_file)).0

-- An update is announced only when the boot goes to its partition.
abbrev pub IsAnnounced : String → World → Type 0
IsAnnounced part_num w = flag w ≡ "1" → IsSynced part_num w

-- The new partition is announced: the boot goes to it, and its boots are counted from 0.
pub record IsInstalled (part_num : String) (w : World) : Type 0 where
  pub synced : IsSynced part_num w
  pub counted : Has boot_count_file "0" w
  pub flagged : Has upgrade_avail_file "1" w

module _ (sys : System) (board : HasBootPartition sys) (n : ℕ) (small : n < cutoff) where
  abbrev pub part : String
  part = format_int 10 (pos n)

  abbrev pub Unflagged : World → Type 0
  Unflagged w = flag w ≢ "1"

  abbrev HexStep : Bool → World → Type 0
  HexStep failed w = Unflagged w × (failed ≡ false → IsSynced part w)

  write_part-keeps :
      (part_num : String) → Triple Unflagged (write_mender_boot_part sys part_num) (After Unflagged)
  unfolding set_file set_boot
  write_part-keeps part_num =
      write_mender_boot_part-keeps sys (λ w calls p. p) (λ w at c d p. p) (λ w at c p. p)
        (λ w c p. p) (λ w c p. p) part_num

  write_hex-Leaves :
      Triple Unflagged (write_var sys "mender_boot_part_hex" (format_upper_hex n)) HexStep
  unfolding write_var write_as var_of
  write_hex-Leaves = rw (parse_int-format_upper_hex n small) (
      both-Triple (write_part-keeps part)
        (weaken-Triple (λ w p. tt) (λ a w q. q) (write_mender_boot_part-Leaves sys board part)))

  -- Before the flag is written: it is unset, and both name the partition.
  abbrev Prepared : World → Type 0
  Prepared w = Unflagged w × IsSynced part w

  abbrev CountStep : Bool → World → Type 0
  CountStep failed w = Prepared w × (failed ≡ false → Has boot_count_file "0" w)

  abbrev pub Done : Bool → World → Type 0
  Done failed w = IsAnnounced part w × (failed ≡ false → IsInstalled part w)

  -- A failure before the flag is written leaves it unset.
  stop : {P : World → Type 0} → ((w : World) → P w → Unflagged w) → Triple P (pure true) Done
  stop unflagged = pure-Triple true (λ w p. ((λ e. absurd (unflagged w p e)), (λ e. ground arith)))

  write_dec-keeps :
      (dec : String) → Triple Unflagged (write_var sys "mender_boot_part" dec) (After Unflagged)
  unfolding write_var write_as var_of
  write_dec-keeps dec = write_part-keeps dec

  write_count-Leaves : Triple Prepared (write_var sys "bootcount" "0") CountStep
  unfolding write_var write_as var_of set_file
  write_count-Leaves =
      both-Triple
        (write_file-keeps sys
          (λ w calls p. (p.0, record { recorded = p.1.recorded; boots = p.1.boots }))
          boot_count_file (λ w c p. (p.0, record { recorded = p.1.recorded; boots = p.1.boots }))
          "0")
        (weaken-Triple (λ w p. tt) (λ a w q. q) (write_file-Leaves sys boot_count_file "0"))

  -- What is written last.
  abbrev Counted : World → Type 0
  Counted w = IsSynced part w × Has boot_count_file "0" w

  write_flag-Leaves : Triple Counted (write_var sys "upgrade_available" "1") Done
  unfolding write_var write_as var_of set_file
  write_flag-Leaves =
      weaken-Triple (λ w p. p)
        (λ a w q.
          ((λ e. q.0.0), (λ e. record { synced = q.0.0; counted = q.0.1; flagged = q.1 e })))
        (both-Triple
          (write_file-keeps sys
            (λ w calls p. (record { recorded = p.0.recorded; boots = p.0.boots }, p.1))
            upgrade_avail_file
            (λ w c p. (record { recorded = p.0.recorded; boots = p.0.boots }, p.1)) "1")
          (weaken-Triple (λ w p. tt) (λ a w q. q) (write_file-Leaves sys upgrade_avail_file "1")))

  after_hex :
      (failed : Bool) {k : M Bool}
      → Triple Prepared k Done
      → Triple (HexStep failed) (if failed then pure true else k) Done
  after_hex true h = stop (λ w p. p.0)
  after_hex false h = weaken-Triple (λ w p. (p.0, p.1 refl)) (λ a w q. q) h

  after_count :
      (failed : Bool) {k : M Bool}
      → Triple Counted k Done
      → Triple (CountStep failed) (if failed then pure true else k) Done
  after_count true h = stop (λ w p. p.0.0)
  after_count false h = weaken-Triple (λ w p. (p.0.1, p.1 refl)) (λ a w q. q) h

  at_end : (failed : Bool) → Triple (Done failed) (if failed then pure true else pure false) Done
  at_end true = pure-Triple true (λ w p. p)
  at_end false = pure-Triple false (λ w p. p)

  pub write_env-announces :
      (dec : String)
      → Triple Unflagged (write_env sys (install_vars (dec, format_upper_hex n))) Done
  unfolding write_env write_named write_if lookup keep contains write_all
  write_env-announces dec =
      bind-Triple Done
        (bind-Triple (After Unflagged) (write_dec-keeps dec) (λ failed.
          if-Triple failed (stop (λ w p. p)) (
            bind-Triple HexStep write_hex-Leaves (λ failed. after_hex failed (
              bind-Triple CountStep write_count-Leaves
                (λ failed. after_count failed (bind-Triple Done write_flag-Leaves at_end)))))))
        at_end
