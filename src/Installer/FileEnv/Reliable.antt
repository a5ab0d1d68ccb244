-- ===== src/Installer/FileEnv/Reliable.antt =====
-- installer/file_bootenv.go on a system without failures: every write succeeds.
use Prim.Native.String.{◌++◌ as ◌++ₛ◌}
use ota_pulse.Prelude.{
  String, Bool, true, false, not, Option, none, some, List, ◌∷◌, ◌≡◌, refl, if◌then◌else◌, arith,
  ap,
}
use ota_pulse.Installer.World.{
  Call, World, WriteResult, M, ◌>>=◌, ◌>>◌, pure, modify, ask, System, try, write_data, is_written,
}
use ota_pulse.Installer.Triple.{Triple, After, bind-Triple, then-Triple, pure-Triple, weaken-Triple}
use ota_pulse.Installer.FileEnv.Files.{
  attempts, after_write, write_file, data_dir, mender_boot_part_file,
}
use ota_pulse.Installer.FileEnv.BootPartition.{
  boot_partition, write_boot, write_slot_byte, direct_boot, sync_to,
  sync_boot_slot_to_boot_partition,
}
use ota_pulse.Installer.FileEnv.Vars.{write_mender_boot_part}
use ota_pulse.Installer.FileEnv.Writes.{UnlessFailed, Anything, before_retry-keeps}
use ota_pulse.Installer.FileEnv.Kept.{direct_boot-keeps}

-- No call fails, every write is done, and the board has a boot partition.
pub record IsReliable (sys : System) : Type 0 where
  pub no_failure : (calls : List Call) → sys.fails calls ≡ false
  pub all_written : (calls : List Call) → sys.write_result calls ≡ WriteResult.written
  pub found : (w : World) → (at : String) × ((boot_partition sys w).0 ≡ (some at, true))

-- The action has no error.
abbrev pub Succeeds : Bool → World → Type 0
Succeeds failed w = failed ≡ false

-- What an action is sure to leave.
abbrev pub Surely : (World → Type 0) → Bool → World → Type 0
Surely Q failed w = (failed ≡ false) × Q w

-- One action after another, up to the first error, of which there is none.
pub sure-Triple :
    {P Q : World → Type 0} {R : Bool → World → Type 0} {m k : M Bool}
    → Triple P m (Surely Q)
    → Triple Q k R
    → Triple P (m >>= λ failed. if failed then pure true else k) R
sure-Triple {Q = Q} {R = R} {k = k} first next = bind-Triple (Surely Q) first on
  where
    on : (failed : Bool) → Triple (Surely Q failed) (if failed then pure true else k) R
    on true = pure-Triple true (λ w p. ground arith)
    on false = weaken-Triple (λ w p. p.1) (λ a w q. q) next

pub keeps→surely :
    {P : World → Type 0} {m : M Bool}
    → Triple P m (After P)
    → Triple Anything m Succeeds
    → Triple P m (Surely P)
keeps→surely kept ok = record { run = λ w p. (ok.run w tt, kept.run w p) }

pub leaves→surely :
    {P Q : World → Type 0} {m : M Bool}
    → Triple P m (UnlessFailed Q)
    → Triple Anything m Succeeds
    → Triple P m (Surely Q)
leaves→surely left ok = record { run = λ w p. (ok.run w tt, left.run w p (ok.run w tt)) }

module _ (sys : System) (r : IsReliable sys) where
  pub try-Succeeds : (c : Call) → Triple Anything (try sys c) Succeeds
  unfolding ask
  try-Succeeds c = record { run = λ w p. r.no_failure (c ∷ w.trace) }

  write_data-Succeeds :
      (path content : String)
      → Triple Anything (write_data sys path content) (λ result w. result ≡ WriteResult.written)
  unfolding write_data ◌>>=◌ ◌>>◌ ask modify pure
  write_data-Succeeds path content = record {
    run = λ w p. r.all_written (Call.write_file path content ∷ w.trace);
  }

  after_write-Succeeds :
      (again : M Bool) (result : WriteResult)
      → Triple (λ w. result ≡ WriteResult.written) (after_write again result) Succeeds
  after_write-Succeeds again WriteResult.written = pure-Triple false (λ w p. refl)
  after_write-Succeeds again WriteResult.read_only = record { run = λ w p. ground arith }
  after_write-Succeeds again (WriteResult.failed left) = record { run = λ w p. ground arith }

  pub write_file-Succeeds :
      (path content : String) → Triple Anything (write_file sys path content) Succeeds
  unfolding write_file attempts
  write_file-Succeeds path content =
      sure-Triple {Q = Anything}
        (weaken-Triple (λ w p. p) (λ a w q. (q, tt)) (try-Succeeds (Call.make_dir data_dir)))
        (then-Triple Anything (before_retry-keeps sys (λ w calls p. p) 0) (
          bind-Triple (λ result w. result ≡ WriteResult.written)
            (write_data-Succeeds path (content ++ₛ "\n"))
            (after_write-Succeeds (attempts sys 14 1 path content))))

  write_slot_byte-Succeeds :
      (at part_num : String)
      → Triple Anything (write_slot_byte sys at part_num) (λ done w. done ≡ true)
  unfolding write_boot ◌>>=◌ ◌>>◌ ask modify pure
  write_slot_byte-Succeeds at part_num = record {
    run = λ w p. ap is_written (
        r.all_written (Call.write_file (at ++ₛ "/mender_boot_part") (part_num ++ₛ "\n") ∷ w.trace));
  }

  sync_to-Succeeds :
      (part_num : String) (found : Option String × Bool)
      → Triple
          (λ w. (at : String) × (found ≡ (some at, true)))
          (sync_to sys part_num found)
          Succeeds
  unfolding sync_to
  sync_to-Succeeds part_num (none, tried) = record { run = λ w p. ground arith }
  sync_to-Succeeds part_num (some at, tried) =
      bind-Triple (λ done w. done ≡ true)
        (weaken-Triple (λ w p. tt) (λ a w q. q) (write_slot_byte-Succeeds at part_num)) if_done
    where
      if_done :
          (done : Bool)
          → Triple
              (λ w. done ≡ true)
              (if not done then pure true else direct_boot sys at part_num >> pure false)
              Succeeds
      if_done false = record { run = λ w p. ground arith }
      if_done true =
          then-Triple Anything
            (weaken-Triple (λ w p. tt) (λ a w q. q)
              (direct_boot-keeps sys {P = Anything} (λ w calls p. p) (λ w at c d p. p) at part_num))
            (pure-Triple false (λ w p. refl))

  pub write_mender_boot_part-Succeeds :
      (part_num : String) → Triple Anything (write_mender_boot_part sys part_num) Succeeds
  unfolding write_mender_boot_part sync_boot_slot_to_boot_partition
  write_mender_boot_part-Succeeds part_num =
      sure-Triple {Q = Anything}
        (weaken-Triple (λ w p. p) (λ a w q. (q, tt))
          (write_file-Succeeds mender_boot_part_file part_num))
        (then-Triple Anything (record { run = λ w p. tt })
          (bind-Triple (λ found w. (at : String) × (found ≡ (some at, true)))
            (record { run = λ w p. r.found w }) (sync_to-Succeeds part_num)))
