-- ===== src/Installer/DualRootfs/Meets.antt =====
-- installer/dual_rootfs_device.go: the steps of an update, each against its specification.
use ota_pulse.Prelude.{
  ℕ, String, Bool, true, false, not, Option, some, List, ◌≡◌, refl, ap, sym, ◌∙◌, ◌<◌,
  if◌then◌else◌, arith, ◌==◌, ◌=ₛ◌, eq_refl, eq_iff, Bool-cases, inl, inr,
}
use ota_pulse.Prelude.Int.{pos}
use ota_pulse.Installer.Text.{format_int, format_upper_hex, cutoff, atoi, trailing_digits}
use ota_pulse.Installer.Text.Laws.{atoi-format_int}
use ota_pulse.Installer.World.{Call, World, M, ◌>>=◌, ◌>>◌, pure, System, set_boot}
use ota_pulse.Installer.Triple.{
  Triple, bind-Triple, then-Triple, pure-Triple, if-Triple, weaken-Triple, ask-Triple,
}
use ota_pulse.Installer.BootEnv.{BootEnv}
use ota_pulse.Installer.FileEnv.Vars.{write_env}
use ota_pulse.Installer.FileEnv.Reconcile.{file_boot_env}
use ota_pulse.Installer.FileEnv.Cleared.{clear_direct_boot_backup-keeps}
use ota_pulse.Installer.FileEnv.Reliable.{
  IsReliable, Surely, sure-Triple, keeps→surely, try-Succeeds,
}
use ota_pulse.Installer.Partitions.{Mounted}
use ota_pulse.Installer.DualRootfs.{
  install_update, install_to, switch_boot_slot, switch_boot_slot_script, commit_update, commit_if,
  commit_vars, rollback, get_partition_impl, verify_reboot, verify_rollback_reboot, has_update,
  not_updated, still_updated,
}
use ota_pulse.Installer.DualRootfs.TwoSlots.{TwoSlots, Request, specified}
use ota_pulse.Installer.DualRootfs.Shown.{IsDevice, Refines, has_update-reads}
use ota_pulse.Installer.DualRootfs.Sets.{sets_install, sets_commit, board}
use ota_pulse.Installer.DualRootfs.Install.{install_update_known, get_partition_impl-number}

-- Partition numbers are told apart by their text.
format_int_inj :
    (n m : ℕ) → n < cutoff → m < cutoff → format_int 10 (pos n) ≡ format_int 10 (pos m) → n ≡ m
format_int_inj n m hn hm e = same (sym (atoi-format_int n hn) ∙ ap atoi e ∙ atoi-format_int m hm)
  where
    same : {a b : ℕ} → some (pos a) ≡ some (pos b) → a ≡ b
    same h = ground arith

==→≡ : (a b : ℕ) → a == b ≡ true → a ≡ b
==→≡ a b h = ground arith

pub same_number :
    (n m : ℕ)
    → n < cutoff
    → m < cutoff
    → (format_int 10 (pos n) =ₛ format_int 10 (pos m)) ≡ (n == m)
same_number n m hn hm = elim (Bool-cases (n == m)) [
  | inl same ↦
      ground
        (arith, eq_refl (format_int 10 (pos n)), ap (λ k. format_int 10 (pos k)) (==→≡ n m same))
  | inr differ ↦ elim (Bool-cases (format_int 10 (pos n) =ₛ format_int 10 (pos m))) [
    | inl e ↦ ground (arith, format_int_inj n m hn hm ((eq_iff _ _).0 e))
    | inr e ↦ ground arith
  ]
]

module _ (sys : System) (r : IsReliable sys) (mounted : Mounted) where
  abbrev env : BootEnv
  env = file_boot_env sys

  abbrev pub requested : Request → M Bool
  requested Request.install = install_update sys mounted env
  requested Request.commit = commit_update sys mounted env
  requested Request.roll_back = rollback sys mounted env
  requested Request.verify = verify_reboot sys mounted env
  requested Request.verify_rollback = verify_rollback_reboot sys mounted env

  -- The result and the state after a request are those of the specification.
  abbrev pub Meets : Request → TwoSlots → Bool → World → Type 0
  Meets q s failed w = (failed ≡ (specified q s).0) × Refines (specified q s).1 w

  module _ {P : World → Type 0}
      (free : (w : World) (calls : List Call) → P w → P (record w { trace = calls })) where
    switch_boot_slot-keeps :
        (part : String) → Triple P (switch_boot_slot sys mounted env part) (Surely P)
    unfolding switch_boot_slot
    switch_boot_slot-keeps part =
        if-Triple (not (sys.exists switch_boot_slot_script)) (pure-Triple false (λ w p. (refl, p)))
          (keeps→surely (ask-Triple _ sys.fails free) (try-Succeeds sys r _))

  module _ (s : TwoSlots) where
    -- The flag is read first, as the specification has it.
    pub flag_first :
        {Q : Bool → World → Type 0} (k : Option Bool → M Bool)
        → Triple (Refines s) (k (some s.pending)) Q
        → Triple (Refines s) (has_update sys mounted env >>= k) Q
    flag_first k h =
        bind-Triple (λ flag w. Refines s w × (flag ≡ some s.pending))
          (record {
            run = λ w p. rw (has_update-reads sys r mounted w s.pending p.marks) (p, refl);
          })
          (λ flag. record { run = λ w q. rw q.1 (h.run w q.0) })

  commit_if-Meets :
      (s : TwoSlots) (b : Bool)
      → Triple
          (Refines (record s { pending = b }))
          (commit_if sys mounted env (some b))
          (Meets Request.commit (record s { pending = b }))
  unfolding specified set_boot
  commit_if-Meets s false = pure-Triple true (λ w p. (refl, p))
  commit_if-Meets s true = sure-Triple (sets_commit sys r (record s { pending = true })) (
      then-Triple (Refines (record s { pending = false }))
        (clear_direct_boot_backup-keeps sys (λ w calls p. p) (λ w at c d p. p))
        (pure-Triple false (λ w p. (refl, p))))

  pub commit-Meets :
      (s : TwoSlots) → Triple (Refines s) (requested Request.commit) (Meets Request.commit s)
  unfolding commit_update
  commit-Meets s = flag_first s (commit_if sys mounted env) (commit_if-Meets s s.pending)

  pub verify-Meets :
      (s : TwoSlots) → Triple (Refines s) (requested Request.verify) (Meets Request.verify s)
  unfolding verify_reboot specified
  verify-Meets s =
      flag_first s (λ flag. pure (not_updated flag))
        (pure-Triple (not s.pending) (λ w p. (refl, p)))

  pub verify_rollback-Meets :
      (s : TwoSlots)
      → Triple (Refines s) (requested Request.verify_rollback) (Meets Request.verify_rollback s)
  unfolding verify_rollback_reboot specified
  verify_rollback-Meets s =
      flag_first s (λ flag. pure (still_updated flag)) (pure-Triple s.pending (λ w p. (refl, p)))

  -- The numbers of a device that was found.
  number_known :
      {path : String} {n : ℕ} → IsDevice path n → atoi (trailing_digits path) ≡ some (pos n)
  number_known {n = n} d = ap atoi d.number ∙ atoi-format_int n d.small

  pub numbers_known :
      {path : String} {n : ℕ}
      → IsDevice path n
      → get_partition_impl path ≡ some (format_int 10 (pos n), format_upper_hex n)
  numbers_known {path = path} {n = n} d =
      get_partition_impl-number path (number_known d)
      ∙ ap (λ dec. some (dec, format_upper_hex n)) d.number

  after_switch :
      (s : TwoSlots) (not_switched : Bool) (k : M Bool)
      → Triple
          (Surely (Refines s) not_switched)
          (if not not_switched then pure false else k)
          (Surely (Refines s))
  after_switch s false k = pure-Triple false (λ w p. p)
  after_switch s true k = record { run = λ w p. ground arith }

  installs :
      (s : TwoSlots) (part : String)
      → s.other < cutoff
      → Triple
          (λ w. Refines s w)
          (install_to sys mounted env (some (part, format_upper_hex s.other)))
          (Surely (Refines (record s { target = s.other; pending = true })))
  installs s part small =
      weaken-Triple (λ w p. (p.runs, p.waits)) (λ a w q. q)
        (sure-Triple (sets_install sys r s s.other part small) (
          bind-Triple (Surely (Refines (record s { target = s.other; pending = true })))
            (switch_boot_slot-keeps (λ w calls p. p) part)
            (λ not_switched.
              after_switch (record s { target = s.other; pending = true }) not_switched
                (write_env sys commit_vars >> pure true))))

  pub install-Meets :
      (s : TwoSlots) → Triple (Refines s) (requested Request.install) (Meets Request.install s)
  unfolding specified
  install-Meets s = record {
    run = λ w p.
        rw
          (install_update_known sys mounted w s.other (board sys r s) p.waits.known
            (number_known p.waits))
          ((installs s (trailing_digits w.inactive) p.waits.small).run w p);
  }
