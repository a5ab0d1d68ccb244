-- ===== src/Installer/DualRootfs/Refines.antt =====
-- installer/dual_rootfs_device.go: any requests in a row, against the specification of the two slots.
use ota_pulse.Prelude.{
  ℕ, String, Bool, true, false, not, Option, some, List, [], ◌∷◌, ◌≡◌, refl, ap, if◌then◌else◌,
  lookup, ◌==◌,
}
use ota_pulse.Prelude.Int.{pos}
use ota_pulse.Installer.Text.{format_int, format_upper_hex}
use ota_pulse.Installer.World.{World, M, ◌>>=◌, pure, gets, System}
use ota_pulse.Installer.Triple.{Triple, bind-Triple, pure-Triple}
use ota_pulse.Installer.BootEnv.{BootEnv}
use ota_pulse.Installer.FileEnv.Reconcile.{file_boot_env}
use ota_pulse.Installer.FileEnv.Reliable.{IsReliable, Surely}
use ota_pulse.Installer.Partitions.{Mounted, get_active, get_inactive}
use ota_pulse.Installer.DualRootfs.{
  rollback, roll_back_if, roll_back_to, roll_back_from, roll_back_with, get_inactive_partition,
  get_active_partition,
}
use ota_pulse.Installer.DualRootfs.TwoSlots.{TwoSlots, Request, specified, specified_run}
use ota_pulse.Installer.DualRootfs.Shown.{IsDevice, Refines, part_reads}
use ota_pulse.Installer.DualRootfs.Sets.{sets_rollback}
use ota_pulse.Installer.DualRootfs.Meets.{
  same_number, requested, Meets, flag_first, commit-Meets, verify-Meets, verify_rollback-Meets,
  numbers_known, install-Meets,
}

module _ (sys : System) (r : IsReliable sys) (mounted : Mounted) where
  abbrev env : BootEnv
  env = file_boot_env sys

  get_active_known :
      (w : World) {n : ℕ}
      → IsDevice w.active n
      → get_active_partition sys mounted env w
        ≡ (some (format_int 10 (pos n), format_upper_hex n), w)
  unfolding get_active_partition get_active ◌>>=◌ gets pure
  get_active_known w d = rw (d.known, numbers_known sys r mounted d) refl

  get_inactive_known :
      (w : World) {n : ℕ}
      → IsDevice w.inactive n
      → get_inactive_partition sys mounted env w
        ≡ (some (format_int 10 (pos n), format_upper_hex n), w)
  unfolding get_inactive_partition get_inactive ◌>>=◌ gets pure
  get_inactive_known w d = rw (d.known, numbers_known sys r mounted d) refl

  abbrev pub chosen : TwoSlots → Bool → TwoSlots
  chosen s b = record s { target = if b then s.other else s.running; pending = false }

  choose :
      (s : TwoSlots) (b : Bool)
      → Triple
          (Refines s)
          (if not b
            then roll_back_to sys mounted env
                (some (format_int 10 (pos s.running), format_upper_hex s.running))
            else (get_inactive_partition sys mounted env >>= roll_back_to sys mounted env))
          (Surely (Refines (chosen s b)))
  choose s false = record {
    run = λ w p.
        (sets_rollback sys r s s.running (format_int 10 (pos s.running)) p.runs.small).run w
          (p.runs, p.waits);
  }
  choose s true =
      bind-Triple {A = Option (String × String)}
        (λ next w.
          Refines s w × (next ≡ some (format_int 10 (pos s.other), format_upper_hex s.other)))
        (record { run = λ w p. rw (get_inactive_known w p.waits) (p, refl) })
        (λ next. record {
          run = λ w q. rw q.1 (
              (sets_rollback sys r s s.other (format_int 10 (pos s.other)) q.0.waits.small).run w
                (q.0.runs, q.0.waits));
        })

  roll_back_from_active :
      (s : TwoSlots)
      → Triple
          (Refines s)
          (roll_back_from sys mounted env
            (format_int 10 (pos s.target))
            (some (format_int 10 (pos s.running), format_upper_hex s.running)))
          (Surely (Refines (chosen s (s.target == s.running))))
  roll_back_from_active s = record {
    run = λ w p.
        rw (same_number s.target s.running p.small p.runs.small)
          ((choose s (s.target == s.running)).run w p);
  }

  roll_back_with_target :
      (s : TwoSlots)
      → Triple
          (Refines s)
          (roll_back_with sys mounted env (some (format_int 10 (pos s.target))))
          (Surely (Refines (chosen s (s.target == s.running))))
  roll_back_with_target s =
      bind-Triple
        (λ active w.
          Refines s w × (active ≡ some (format_int 10 (pos s.running), format_upper_hex s.running)))
        (record { run = λ w p. rw (get_active_known w p.runs) (p, refl) })
        (λ active. record { run = λ w q. rw q.1 ((roll_back_from_active s).run w q.0) })

  roll_back_if-Meets :
      (s : TwoSlots) (b : Bool)
      → Triple
          (Refines (record s { pending = b }))
          (roll_back_if sys mounted env (some b))
          (Meets sys r mounted Request.roll_back (record s { pending = b }))
  unfolding specified lookup
  roll_back_if-Meets s false = pure-Triple false (λ w p. (refl, p))
  roll_back_if-Meets s true =
      bind-Triple
        (λ vars w.
          Refines (record s { pending = true }) w
          × (vars ≡ some (("mender_boot_part", format_int 10 (pos s.target)) ∷ [])))
        (record { run = λ w p. rw (part_reads sys r mounted w s.target p.names) (p, refl) })
        (λ vars. record {
          run = λ w q. rw q.1 ((roll_back_with_target (record s { pending = true })).run w q.0);
        })

  roll_back-Meets :
      (s : TwoSlots)
      → Triple
          (Refines s)
          (requested sys r mounted Request.roll_back)
          (Meets sys r mounted Request.roll_back s)
  unfolding rollback
  roll_back-Meets s =
      flag_first sys r mounted s (roll_back_if sys mounted env) (roll_back_if-Meets s s.pending)

  request-Meets :
      (q : Request) (s : TwoSlots)
      → Triple (Refines s) (requested sys r mounted q) (Meets sys r mounted q s)
  request-Meets Request.install s = install-Meets sys r mounted s
  request-Meets Request.commit s = commit-Meets sys r mounted s
  request-Meets Request.roll_back s = roll_back-Meets s
  request-Meets Request.verify s = verify-Meets sys r mounted s
  request-Meets Request.verify_rollback s = verify_rollback-Meets sys r mounted s

  -- The requests in their order, and their results.
  unfoldable pub serve : List Request → M (List Bool)
  serve [] = pure []
  serve (q ∷ qs) = do failed ← requested sys r mounted q; rest ← serve qs; pure (failed ∷ rest)

  abbrev Agrees : List Request → TwoSlots → List Bool → World → Type 0
  Agrees qs s results w = (results ≡ (specified_run qs s).0) × Refines (specified_run qs s).1 w

  then_rest :
      (q : Request) (qs : List Request) (s : TwoSlots)
      → Triple (Refines (specified q s).1) (serve qs) (Agrees qs (specified q s).1)
      → Triple
          (Refines (specified q s).1)
          (serve qs >>= λ rest. pure ((specified q s).0 ∷ rest))
          (Agrees (q ∷ qs) s)
  unfolding specified_run
  then_rest q qs s h = bind-Triple (Agrees qs (specified q s).1) h (λ rest.
      pure-Triple ((specified q s).0 ∷ rest)
        (λ w p. (ap (λ results. (specified q s).0 ∷ results) p.0, p.1)))

  serve-Agrees : (qs : List Request) (s : TwoSlots) → Triple (Refines s) (serve qs) (Agrees qs s)
  unfolding serve specified_run
  serve-Agrees [] s = pure-Triple [] (λ w p. (refl, p))
  serve-Agrees (q ∷ qs) s = bind-Triple (Meets sys r mounted q s) (request-Meets q s) (λ failed.
      record {
        run = λ w p. rw p.0 ((then_rest q qs s (serve-Agrees qs (specified q s).1)).run w p.1);
      })

  -- On a system without failures, any requests in a row have the results of the specification, and
  -- leave the files of the boot environment as it says, if these and the known partitions agreed with
  -- it before.
  pub serve-Refines :
      (qs : List Request) (s : TwoSlots) (w : World)
      → Refines s w
      → ((serve qs w).0 ≡ (specified_run qs s).0) × Refines (specified_run qs s).1 (serve qs w).1
  serve-Refines qs s w p = (serve-Agrees qs s).run w p
