-- ===== src/Installer/DualRootfs/Sets.antt =====
-- installer/dual_rootfs_device.go: the writes of the boot environment on a system without failures.
use ota_pulse.Prelude.{ℕ, String, Bool, true, false, refl, ap, ◌<◌, lookup, contains, keep}
use ota_pulse.Prelude.Int.{pos}
use ota_pulse.Installer.Text.{format_int, format_upper_hex, cutoff}
use ota_pulse.Installer.Text.Laws.{parse_int-format_upper_hex}
use ota_pulse.Installer.World.{World, pure, System, set_file, set_boot}
use ota_pulse.Installer.Triple.{Triple, pure-Triple, weaken-Triple, both-Triple}
use ota_pulse.Installer.FileEnv.Files.{upgrade_avail_file, boot_count_file, mender_boot_part_file}
use ota_pulse.Installer.FileEnv.Vars.{
  write_mender_boot_part, write_env, write_named, write_all, write_if, write_var, write_as, var_of,
}
use ota_pulse.Installer.FileEnv.Writes.{Has, write_file-keeps, write_file-Leaves}
use ota_pulse.Installer.FileEnv.Synced.{
  HasBootPartition, write_mender_boot_part-keeps, write_mender_boot_part-Leaves,
}
use ota_pulse.Installer.FileEnv.Reliable.{
  IsReliable, Surely, sure-Triple, keeps→surely, leaves→surely, write_file-Succeeds,
  write_mender_boot_part-Succeeds,
}
use ota_pulse.Installer.DualRootfs.{install_vars, rollback_vars, commit_vars}
use ota_pulse.Installer.DualRootfs.TwoSlots.{TwoSlots}
use ota_pulse.Installer.DualRootfs.Shown.{IsDevice, Refines, bit}

abbrev pub Devices : TwoSlots → World → Type 0
Devices s w = IsDevice w.active s.running × IsDevice w.inactive s.other

module _ (sys : System) (r : IsReliable sys) (s : TwoSlots) where
  pub board : HasBootPartition sys
  board = record { found = λ w. ap (λ found. found.1) (r.found w).1 }

  -- The devices, and the partition to boot from.
  abbrev Names : ℕ → World → Type 0
  Names n w = Devices s w × Has mender_boot_part_file (format_int 10 (pos n)) w

  abbrev Marks : ℕ → Bool → World → Type 0
  Marks n pending w = Names n w × Has upgrade_avail_file (bit pending) w

  write_part-keeps :
      (part : String) → Triple (Devices s) (write_mender_boot_part sys part) (Surely (Devices s))
  unfolding set_file set_boot
  write_part-keeps part =
      keeps→surely
        (write_mender_boot_part-keeps sys (λ w calls p. p) (λ w at c d p. p) (λ w at c p. p)
          (λ w c p. p) (λ w c p. p) part)
        (write_mender_boot_part-Succeeds sys r part)

  sets_part :
      (part : String)
      → Triple (Devices s) (write_var sys "mender_boot_part" part) (Surely (Devices s))
  unfolding write_var write_as var_of
  sets_part part = write_part-keeps part

  sets_hex :
      (n : ℕ)
      → n < cutoff
      → Triple
          (Devices s)
          (write_var sys "mender_boot_part_hex" (format_upper_hex n))
          (Surely (Names n))
  unfolding write_var write_as var_of
  sets_hex n small = rw (parse_int-format_upper_hex n small) (
      weaken-Triple (λ w p. p) (λ a w q. (q.0.0, (q.0.1, q.1.1.recorded)))
        (both-Triple (write_part-keeps (format_int 10 (pos n))) (
          leaves→surely
            (weaken-Triple (λ w p. tt) (λ a w q. q)
              (write_mender_boot_part-Leaves sys board (format_int 10 (pos n))))
            (write_mender_boot_part-Succeeds sys r (format_int 10 (pos n))))))

  sets_count : (n : ℕ) → Triple (Names n) (write_var sys "bootcount" "0") (Surely (Names n))
  unfolding write_var write_as var_of set_file
  sets_count n =
      keeps→surely (write_file-keeps sys (λ w calls p. p) boot_count_file (λ w c p. p) "0")
        (write_file-Succeeds sys r boot_count_file "0")

  sets_flag :
      (n : ℕ) (pending : Bool)
      → Triple
          (Names n)
          (write_var sys "upgrade_available" (bit pending))
          (Surely (Marks n pending))
  unfolding write_var write_as var_of set_file
  sets_flag n pending =
      weaken-Triple (λ w p. p) (λ a w q. (q.0.0, (q.0.1, q.1.1)))
        (both-Triple
          (keeps→surely
            (write_file-keeps sys (λ w calls p. p) upgrade_avail_file (λ w c p. p) (bit pending))
            (write_file-Succeeds sys r upgrade_avail_file (bit pending)))
          (leaves→surely
            (weaken-Triple (λ w p. tt) (λ a w q. q)
              (write_file-Leaves sys upgrade_avail_file (bit pending)))
            (write_file-Succeeds sys r upgrade_avail_file (bit pending))))

  -- What the two files show after a write.
  refined :
      (n : ℕ) (pending : Bool)
      → n < cutoff
      → (failed : Bool) (w : World) → Surely (Marks n pending) failed w
      → Surely (Refines (record s { target = n; pending = pending })) failed w
  refined n pending small failed w q = (
    q.0,
    record { runs = q.1.0.0.0; waits = q.1.0.0.1; names = q.1.0.1; small = small; marks = q.1.1 },
  )

  done : {P : World → Type 0} → Triple P (pure false) (Surely P)
  done = pure-Triple false (λ w p. (refl, p))

  pub sets_install :
      (n : ℕ) (part : String)
      → n < cutoff
      → Triple
          (Devices s)
          (write_env sys (install_vars (part, format_upper_hex n)))
          (Surely (Refines (record s { target = n; pending = true })))
  unfolding write_env write_named write_if lookup keep contains write_all
  sets_install n part small =
      weaken-Triple (λ w p. p) (refined n true small)
        (sure-Triple
          (sure-Triple (sets_part part) (
            sure-Triple (sets_hex n small)
              (sure-Triple (sets_count n) (sure-Triple (sets_flag n true) done))))
          done)

  pub sets_rollback :
      (n : ℕ) (part : String)
      → n < cutoff
      → Triple
          (Devices s)
          (write_env sys (rollback_vars (part, format_upper_hex n)))
          (Surely (Refines (record s { target = n; pending = false })))
  unfolding write_env write_named write_if lookup keep contains write_all
  sets_rollback n part small =
      weaken-Triple (λ w p. p) (refined n false small)
        (sure-Triple
          (sure-Triple (sets_part part) (
            sure-Triple (sets_hex n small)
              (sure-Triple done (sure-Triple (sets_flag n false) done))))
          done)

  sets_only_flag :
      s.target < cutoff
      → Triple
          (Names s.target)
          (write_env sys commit_vars)
          (Surely (Refines (record s { pending = false })))
  unfolding write_env write_named write_if lookup keep contains write_all
  sets_only_flag small =
      weaken-Triple (λ w p. p) (refined s.target false small)
        (sure-Triple
          (sure-Triple done
            (sure-Triple done (sure-Triple done (sure-Triple (sets_flag s.target false) done))))
          done)

  pub sets_commit :
      Triple
        (Refines s)
        (write_env sys commit_vars)
        (Surely (Refines (record s { pending = false })))
  sets_commit = record { run = λ w p. (sets_only_flag p.small).run w ((p.runs, p.waits), p.names) }
