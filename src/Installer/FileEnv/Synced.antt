-- ===== src/Installer/FileEnv/Synced.antt =====
-- installer/file_bootenv.go `writeMenderBootPart` and `WriteEnv`: what their success tells.
use Prim.Native.String.{◌++◌ as ◌++ₛ◌}
use ota_pulse.Prelude.{
  String, Bool, true, false, not, Option, none, some, ◌∷◌, ◌=ₛ◌, ◌≡◌, refl, if◌then◌else◌, arith,
  eq_refl, eq_iff, Bool-cases, inl, inr, ap, sym, ◌∙◌,
}
use ota_pulse.Installer.Text.{is_empty}
use ota_pulse.Installer.World.{
  Call, World, BootDir, WriteResult, ◌>>=◌, ◌>>◌, pure, modify, ask, System, set_boot, set_file,
  left_by, is_written,
}
use ota_pulse.Installer.Triple.{
  Triple, After, IsCallFree, IsFileFree, bind-Triple, then-Triple, pure-Triple, if-Triple,
  then_if-Triple, weaken-Triple, both-Triple,
}
use ota_pulse.Installer.FileEnv.Files.{slot_file, mender_boot_part_file}
use ota_pulse.Installer.FileEnv.Slots.{partition_number_to_slot}
use ota_pulse.Installer.FileEnv.BootPartition.{
  boot_partition, direct_boot, write_boot, write_slot_byte, sync_to,
  sync_boot_slot_to_boot_partition,
}
use ota_pulse.Installer.FileEnv.Vars.{write_mender_boot_part}
use ota_pulse.Installer.FileEnv.Writes.{
  Has, UnlessFailed, Anything, write_file-keeps, write_file-Leaves, UnlessFailed-Triple,
}
use ota_pulse.Installer.FileEnv.Kept.{
  IsCmdlineFree, IsByteFree, boot_partition-keeps, sync_to-keeps, direct_boot-keeps,
}

-- The byte that U-Boot reads, at one of the mount points.
abbrev pub BootsFrom : String → World → Type 0
BootsFrom part_num w = (at : String) × ((w.boot at).mender_boot_part ≡ some (part_num ++ₛ "\n"))

-- The file and the boot partition name the same partition.
pub record IsSynced (part_num : String) (w : World) : Type 0 where
  pub recorded : Has mender_boot_part_file part_num w
  pub boots : BootsFrom part_num w

-- The board has a boot partition: a mount point of it, or a device that is tried.
pub record HasBootPartition (sys : System) : Type 0 where
  pub found : (w : World) → (boot_partition sys w).0.1 ≡ true

module _ (sys : System) where
  module _ {P : World → Type 0} (free : IsCallFree P) (cmd : IsCmdlineFree P)
      (byte : IsByteFree P) where
    sync-keeps :
        (part_num : String) → Triple P (sync_boot_slot_to_boot_partition sys part_num) (After P)
    unfolding sync_boot_slot_to_boot_partition
    sync-keeps part_num =
        bind-Triple (After P) (boot_partition-keeps sys free)
          (sync_to-keeps sys free cmd byte part_num)

    pub write_mender_boot_part-keeps :
        IsFileFree mender_boot_part_file P
        → IsFileFree slot_file P
        → (part_num : String) → Triple P (write_mender_boot_part sys part_num) (After P)
    unfolding write_mender_boot_part
    write_mender_boot_part-keeps part slot part_num =
        bind-Triple (After P) (write_file-keeps sys free mender_boot_part_file part part_num)
          (λ failed. if-Triple failed (pure-Triple true (λ w p. p)) (
            then-Triple P
              (then_if-Triple (not (is_empty (partition_number_to_slot sys part_num))) (
                then-Triple P
                  (write_file-keeps sys free slot_file slot (partition_number_to_slot sys part_num))
                  (pure-Triple tt (λ w p. p))))
              (sync-keeps part_num)))

  -- A byte that was written is there.
  abbrev ByteAt : String → String → World → Type 0
  ByteAt at part_num w = (w.boot at).mender_boot_part ≡ some (part_num ++ₛ "\n")

  put_byte :
      (at content : String) (boot : String → BootDir) (r : WriteResult)
      → is_written r ≡ true
      → BootDir.mender_boot_part (
          if at =ₛ at
          then record (boot at) {
            mender_boot_part = left_by r content (BootDir.mender_boot_part (boot at));
          }
          else boot at)
        ≡ some content
  put_byte at content boot WriteResult.written e = rw (eq_refl at) refl
  put_byte at content boot WriteResult.read_only e = ground arith
  put_byte at content boot (WriteResult.failed left) e = ground arith

  write_slot_byte-Leaves :
      (at part_num : String)
      → Triple Anything
          (write_slot_byte sys at part_num)
          (λ done w. done ≡ true → ByteAt at part_num w)
  unfolding write_boot ◌>>=◌ ◌>>◌ ask modify pure set_boot
  write_slot_byte-Leaves at part_num = record {
    run = λ w p e.
        put_byte at (part_num ++ₛ "\n") w.boot
          (sys.write_result
            (Call.write_file (at ++ₛ "/mender_boot_part") (part_num ++ₛ "\n") ∷ w.trace))
          e;
  }

  byte_stays :
      (at other : String) (boot : String → BootDir) (c d : Option String) (content : Option String)
      → BootDir.mender_boot_part (boot at) ≡ content
      → BootDir.mender_boot_part
          (if at =ₛ other then record (boot other) { cmdline = c; cmdline_prev = d } else boot at)
        ≡ content
  byte_stays at other boot c d content e = elim (Bool-cases (at =ₛ other)) [
    | inl same ↦
        rw same (ap (λ q. BootDir.mender_boot_part (boot q)) (sym ((eq_iff at other).0 same)) ∙ e)
    | inr differs ↦ rw differs e
  ]

  ByteAt-IsCmdlineFree : (at part_num : String) → IsCmdlineFree (ByteAt at part_num)
  unfolding set_boot
  ByteAt-IsCmdlineFree at part_num w other c d p =
      byte_stays at other w.boot c d (some (part_num ++ₛ "\n")) p

  sync_to-Leaves :
      (part_num : String) (found : Option String × Bool)
      → Triple
          (λ w. found.1 ≡ true)
          (sync_to sys part_num found)
          (UnlessFailed (BootsFrom part_num))
  unfolding sync_to
  sync_to-Leaves part_num (none, tried) = pure-Triple tried (λ w p e. ground arith)
  sync_to-Leaves part_num (some at, tried) =
      bind-Triple (λ done w. done ≡ true → ByteAt at part_num w)
        (weaken-Triple (λ w p. tt) (λ a w q. q) (write_slot_byte-Leaves at part_num))
        (λ done. if_done done)
    where
      if_done :
          (done : Bool)
          → Triple
              (λ w. done ≡ true → ByteAt at part_num w)
              (if not done then pure true else direct_boot sys at part_num >> pure false)
              (UnlessFailed (BootsFrom part_num))
      if_done false = pure-Triple true (λ w p e. ground arith)
      if_done true =
          weaken-Triple (λ w p. p refl) (λ a w q. q)
            (then-Triple (ByteAt at part_num)
              (direct_boot-keeps sys (λ w calls p. p) (ByteAt-IsCmdlineFree at part_num) at
                part_num)
              (pure-Triple false (λ w p e. (at, p))))

  module _ (board : HasBootPartition sys) where
    sync-Leaves :
        (part_num : String)
        → Triple Anything
            (sync_boot_slot_to_boot_partition sys part_num)
            (UnlessFailed (BootsFrom part_num))
    unfolding sync_boot_slot_to_boot_partition
    sync-Leaves part_num =
        bind-Triple (λ found w. found.1 ≡ true) (record { run = λ w p. board.found w })
          (sync_to-Leaves part_num)

    -- Success means that the file and the boot partition name the new partition.
    pub write_mender_boot_part-Leaves :
        (part_num : String)
        → Triple Anything (write_mender_boot_part sys part_num) (UnlessFailed (IsSynced part_num))
    unfolding write_mender_boot_part set_file set_boot
    write_mender_boot_part-Leaves part_num =
        bind-Triple (UnlessFailed (Has mender_boot_part_file part_num))
          (write_file-Leaves sys mender_boot_part_file part_num)
          (λ failed. UnlessFailed-Triple failed (
            then-Triple (Has mender_boot_part_file part_num)
              (then_if-Triple (not (is_empty (partition_number_to_slot sys part_num))) (
                then-Triple (Has mender_boot_part_file part_num)
                  (write_file-keeps sys (λ w calls p. p) slot_file (λ w c p. p)
                    (partition_number_to_slot sys part_num))
                  (pure-Triple tt (λ w p. p))))
              (weaken-Triple (λ w p. p) (λ a w q e. record { recorded = q.0; boots = q.1 e })
                (both-Triple
                  (sync-keeps (λ w calls p. p) (λ w at c d p. p) (λ w at c p. p) part_num)
                  (weaken-Triple (λ w p. tt) (λ a w q. q) (sync-Leaves part_num))))))
