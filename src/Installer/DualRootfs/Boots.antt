-- ===== src/Installer/DualRootfs/Boots.antt =====
-- installer/dual_rootfs_device.go and installer/file_bootenv.go: what is done once after a boot.
use Prim.Native.String.{◌++◌ as ◌++ₛ◌}
use mathlib.Core.Path.{subst}
use ota_pulse.Prelude.{
  ℕ, String, Bool, true, false, not, Option, none, some, [], ◌∷◌, ◌≡◌, refl, ap, sym, ◌<◌, ltb,
  if◌then◌else◌, arith, lookup, contains, keep, ◌∙◌,
}
use ota_pulse.Prelude.Int.{pos}
use ota_pulse.Installer.Text.{
  format_int, cutoff, atoi, trailing_digits, trim_space, trim_left, trim_right, is_space,
}
use ota_pulse.Installer.Text.Laws.{
  atoi-format_int, atoi-lt, parse_int-format_upper_hex, format_int-IsPlain, is_empty-format_int,
  trim_space-IsPlain,
}
use ota_pulse.Installer.World.{Call, World, ◌>>=◌, ◌>>◌, pure, gets, ask, then_if, System, set_file}
use ota_pulse.Installer.Triple.{Triple, pure-Triple}
use ota_pulse.Installer.BootEnv.{BootEnv}
use ota_pulse.Installer.FileEnv.Files.{upgrade_avail_file, boot_count_file, content_of, read_file}
use ota_pulse.Installer.FileEnv.Vars.{
  write_mender_boot_part, write_env, write_named, write_all, write_if, write_var, write_as, var_of,
  read_env, read_var, read_as, no_error,
}
use ota_pulse.Installer.FileEnv.Writes.{Has, Anything, write_file-keeps, write_file-Leaves}
use ota_pulse.Installer.FileEnv.Reconcile.{file_boot_env}
use ota_pulse.Installer.FileEnv.Reliable.{
  IsReliable, Surely, sure-Triple, leaves→surely, write_file-Succeeds,
}
use ota_pulse.Installer.Partitions.{Mounted}
use ota_pulse.Installer.DualRootfs.{
  get_partition_impl, boot_count, handle_boot_count_fallback, fallback_vars,
}
use ota_pulse.Installer.DualRootfs.Install.{get_partition_impl-number}

abbrev hex_of : Option (String × String) → String
hex_of none = ""
hex_of (some (dec, hex)) = hex

-- The partition that `getPartitionImpl` names in hexadecimal is the one that it names in decimal:
-- writing its hexadecimal number writes its number.
pub write_var-get_partition_impl :
    (sys : System) (partition hex : String) (n : ℕ)
    → atoi (trailing_digits partition) ≡ some (pos n)
    → get_partition_impl partition ≡ some (trailing_digits partition, hex)
    → write_var sys "mender_boot_part_hex" hex ≡ write_mender_boot_part sys (format_int 10 (pos n))
unfolding write_var write_as var_of
write_var-get_partition_impl sys partition hex n number named =
    rw
      (
        ap hex_of (sym named ∙ get_partition_impl-number partition number),
        parse_int-format_upper_hex n (atoi-lt (trailing_digits partition) number),
      )
      refl

module _ (sys : System) (r : IsReliable sys) (mounted : Mounted) where
  abbrev Cleared : World → Type 0
  Cleared w = Has boot_count_file "0" w × Has upgrade_avail_file "0" w

  sets_fallback : Triple Anything (write_env sys fallback_vars) (Surely Cleared)
  unfolding write_env write_named write_if lookup keep contains write_all write_var write_as var_of
      set_file
  sets_fallback =
      sure-Triple
        (sure-Triple done (sure-Triple done (sure-Triple sets_count (sure-Triple sets_flag done))))
        done
    where
      done : {P : World → Type 0} → Triple P (pure false) (Surely P)
      done = pure-Triple false (λ w p. (refl, p))

      sets_count :
          Triple Anything (write_var sys "bootcount" "0") (Surely (Has boot_count_file "0"))
      sets_count =
          leaves→surely (write_file-Leaves sys boot_count_file "0")
            (write_file-Succeeds sys r boot_count_file "0")

      sets_flag :
          Triple (Has boot_count_file "0") (write_var sys "upgrade_available" "0") (Surely Cleared)
      sets_flag = record {
        run = λ w p. (
          (write_file-Succeeds sys r upgrade_avail_file "0").run w tt,
          (
            (write_file-keeps sys {P = Has boot_count_file "0"} (λ w calls p. p) upgrade_avail_file
                  (λ w c p. p) "0").run
                w p,
            (write_file-Leaves sys upgrade_avail_file "0").run w tt
                ((write_file-Succeeds sys r upgrade_avail_file "0").run w tt),
          ),
        );
      }

  module _ (w : World) (n : ℕ) (flagged : Has upgrade_avail_file "1" w)
      (counted : Has boot_count_file (format_int 10 (pos n)) w) (small : n < cutoff) where
    pub reads : World
    reads = record w {
      trace = Call.read_file boot_count_file ∷ Call.read_file upgrade_avail_file ∷ w.trace;
    }

    trim_one : trim_space ("1" ++ₛ "\n") ≡ "1"
    unfolding trim_space trim_left trim_right is_space
    trim_one = refl

    env_reads :
        BootEnv.read_env (file_boot_env sys) ("upgrade_available" ∷ "bootcount" ∷ []) w
        ≡ (some (("upgrade_available", "1") ∷ ("bootcount", format_int 10 (pos n)) ∷ []), reads)
    unfolding ◌>>=◌ ask gets pure read_env read_var read_as var_of read_file content_of no_error
        reads
    env_reads =
        rw
          (
            r.no_failure (Call.read_file upgrade_avail_file ∷ w.trace),
            flagged,
            trim_one,
            r.no_failure
                (Call.read_file boot_count_file ∷ Call.read_file upgrade_avail_file ∷ w.trace),
            counted,
            trim_space-IsPlain (format_int-IsPlain n),
          )
          refl

    count_reads : boot_count (some (format_int 10 (pos n))) ≡ pos n
    unfolding boot_count
    count_reads = rw (is_empty-format_int n, atoi-format_int n small) refl

    fallback_known :
        handle_boot_count_fallback sys mounted (file_boot_env sys) w
        ≡ then_if (not (ltb n 3)) (write_env sys fallback_vars >> pure tt) reads
    unfolding handle_boot_count_fallback ◌>>=◌ lookup
    fallback_known =
        rw (env_reads, count_reads)
          (ap (λ m. then_if (not (ltb m 3)) (write_env sys fallback_vars >> pure tt) reads)
            (ground arith))

    -- The files after the boots were counted.
    abbrev after : World
    after = (handle_boot_count_fallback sys mounted (file_boot_env sys) w).1

    by_count :
        (early : Bool)
        → Has upgrade_avail_file
            (if early then "1" else "0")
            (then_if (not early) (write_env sys fallback_vars >> pure tt) reads).1
          × Has boot_count_file
              (if early then format_int 10 (pos n) else "0")
              (then_if (not early) (write_env sys fallback_vars >> pure tt) reads).1
    unfolding then_if ◌>>=◌ ◌>>◌ pure reads
    by_count true = (flagged, counted)
    by_count false = let cleared = sets_fallback.run reads tt in (cleared.1.1, cleared.1.0)

    -- While an update waits, on a system without failures, the flag and the count of the boots are
    -- cleared after a boot exactly if there were 3 or more of them.
    pub handle_boot_count_fallback-clears :
        Has upgrade_avail_file (if ltb n 3 then "1" else "0") after
        × Has boot_count_file (if ltb n 3 then format_int 10 (pos n) else "0") after
    handle_boot_count_fallback-clears =
        subst
          (λ o.
            Has upgrade_avail_file (if ltb n 3 then "1" else "0") o.1
            × Has boot_count_file (if ltb n 3 then format_int 10 (pos n) else "0") o.1)
          (sym fallback_known) (by_count (ltb n 3))
