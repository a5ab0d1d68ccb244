-- ===== src/Installer/FileEnv/Files.antt =====
-- installer/file_bootenv.go: the files and how they are read and written.
use Prim.Native.String.{◌++◌ as ◌++ₛ◌}
use ota_pulse.Prelude.{
  ℕ, zero, suc, ◌%◌, String, Bool, true, false, Option, none, some, [], ◌∷◌, ◌==◌, ltb, ◌&&◌,
  if◌then◌else◌,
}
use ota_pulse.Installer.Text.{trim_space}
use ota_pulse.Installer.World.{
  Call, WriteResult, M, ◌>>=◌, ◌>>◌, pure, gets, then_if, System, try, write_data,
}

abbrev pub slot_file : String
slot_file = "/data/ota/current_slot"

abbrev pub boot_count_file : String
boot_count_file = "/data/ota/boot_count"

abbrev pub upgrade_avail_file : String
upgrade_avail_file = "/data/ota/upgrade_available"

abbrev pub mender_boot_part_file : String
mender_boot_part_file = "/data/ota/mender_boot_part"

abbrev pub data_dir : String
data_dir = "/data/ota"

abbrev pub max_retries : ℕ
max_retries = 15

-- `readFile`'s value and whether there is an error, which also has the default for its value.
unfoldable pub content_of : String → Bool → Option String → String × Bool
content_of default_val true content = (default_val, true)
content_of default_val false none = (default_val, false)
content_of default_val false (some text) = (trim_space text, false)

-- Only a file system that is read-only for now is tried again.
abbrev pub after_write : M Bool → WriteResult → M Bool
after_write again WriteResult.written = pure false
after_write again WriteResult.read_only = again
after_write again (WriteResult.failed left) = pure true

module _ (sys : System) where
  unfoldable pub read_file : String → String → M (String × Bool)
  read_file path default_val = do
    failed ← try sys (Call.read_file path)
    text ← gets (λ w. w.files path)
    pure (content_of default_val failed text)

  -- Every third attempt but the first tries to make /data writable again.
  unfoldable pub before_retry : ℕ → M (Unit {0})
  before_retry i =
      then_if (ltb 0 i && i % 3 == 0)
        do try sys (Call.command "mount" ("-o" ∷ "remount,rw" ∷ "/data" ∷ [])); pure tt

  -- The attempts that are left, from attempt `i` on; true is an error.
  unfoldable pub attempts : ℕ → ℕ → String → String → M Bool
  attempts zero i path content = pure true
  attempts (suc n) i path content = do
    before_retry i
    r ← write_data sys path (content ++ₛ "\n")
    after_write (attempts n (suc i) path content) r

  unfoldable pub write_file : String → String → M Bool
  write_file path content = do
    no_dir ← try sys (Call.make_dir data_dir)
    if no_dir then pure true else attempts max_retries 0 path content
