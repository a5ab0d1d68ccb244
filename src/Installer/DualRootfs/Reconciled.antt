-- ===== src/Installer/DualRootfs/Reconciled.antt =====
-- installer/file_bootenv.go `ReconcileToBootedSlot`: what it leaves as it is.
use ota_pulse.Prelude.{String, false, Option, none, some, ◌≡◌, refl, ◌=ₛ◌, ◌&&◌}
use ota_pulse.Installer.Text.{is_empty}
use ota_pulse.Installer.World.{Call, World, System, set_file}
use ota_pulse.Installer.Triple.{
  Triple, After, bind-Triple, then-Triple, pure-Triple, if-Triple, ask-Triple,
}
use ota_pulse.Installer.FileEnv.Files.{upgrade_avail_file, mender_boot_part_file, slot_file}
use ota_pulse.Installer.FileEnv.Slots.{
  partition_number_to_slot, detect_current_partition_number, current_number,
}
use ota_pulse.Installer.FileEnv.Writes.{read_file-keeps, write_file-keeps}
use ota_pulse.Installer.FileEnv.Reconcile.{reconcile_to_booted_slot, realign, realign_to}

-- An action that reads, and leaves all but two files as they are.
abbrev SameBut : World → World → Type 0
SameBut old w =
    ((path : String)
      → (path =ₛ mender_boot_part_file) ≡ false
      → (path =ₛ slot_file) ≡ false
      → w.files path ≡ old.files path)
    × (w.boot ≡ old.boot)

module _ (sys : System) (old : World) where
  realign-keeps :
      (part slot : String) → Triple (SameBut old) (realign sys part slot) (After (SameBut old))
  unfolding realign set_file
  realign-keeps part slot =
      bind-Triple (After (SameBut old))
        (read_file-keeps sys (λ w calls p. p) mender_boot_part_file "")
        (λ cur_part.
          bind-Triple (After (SameBut old)) (read_file-keeps sys (λ w calls p. p) slot_file "")
            (λ cur_slot.
              if-Triple (cur_part.0 =ₛ part && cur_slot.0 =ₛ slot) (pure-Triple tt (λ w p. p)) (
                bind-Triple (After (SameBut old))
                  (write_file-keeps sys (λ w calls p. p) mender_boot_part_file
                    (λ w c p. ((λ q hp hs. rw hp (p.0 q hp hs)), p.1)) part)
                  (λ failed. if-Triple failed (pure-Triple tt (λ w p. p)) (
                    then-Triple (SameBut old)
                      (write_file-keeps sys (λ w calls p. p) slot_file
                        (λ w c p. ((λ q hp hs. rw hs (p.0 q hp hs)), p.1)) slot)
                      (pure-Triple tt (λ w p. p)))))))

  realign_to-keeps :
      (part : Option String) → Triple (SameBut old) (realign_to sys part) (After (SameBut old))
  unfolding realign_to
  realign_to-keeps none = pure-Triple tt (λ w p. p)
  realign_to-keeps (some part) =
      if-Triple (is_empty (partition_number_to_slot sys part)) (pure-Triple tt (λ w p. p))
        (realign-keeps part (partition_number_to_slot sys part))

  reconcile-SameBut : Triple (SameBut old) (reconcile_to_booted_slot sys) (After (SameBut old))
  unfolding reconcile_to_booted_slot detect_current_partition_number
  reconcile-SameBut =
      bind-Triple (After (SameBut old))
        (read_file-keeps sys (λ w calls p. p) upgrade_avail_file "0")
        (λ ua. if-Triple (ua.0 =ₛ "1") (pure-Triple tt (λ w p. p)) (
          bind-Triple (After (SameBut old))
            (bind-Triple (After (SameBut old))
              (ask-Triple Call.read_mounts sys.mounts (λ w calls p. p))
              (λ mounts. pure-Triple (current_number sys mounts) (λ w p. p)))
            realign_to-keeps))

-- The reconciliation leaves the boot partition as it is, and every file but the two of the slot.
pub reconcile_to_booted_slot-keeps :
    (sys : System) (w : World) (path : String)
    → (path =ₛ mender_boot_part_file) ≡ false
    → (path =ₛ slot_file) ≡ false
    → ((reconcile_to_booted_slot sys w).1.files path ≡ w.files path)
      × ((reconcile_to_booted_slot sys w).1.boot ≡ w.boot)
reconcile_to_booted_slot-keeps sys w path hp hs =
    let kept = (reconcile-SameBut sys w).run w ((λ q hp hs. refl), refl) in
    (kept.0 path hp hs, kept.1)
