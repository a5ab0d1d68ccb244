-- ===== src/Installer/World.antt =====
-- What installer/ reads and changes: the files of the boot state, the boot partition, the answers of
-- the operating system, and the actions on them.
use ota_pulse.Prelude.{String, Bool, true, false, Option, some, List, ◌∷◌, ◌=ₛ◌, if◌then◌else◌}

-- The calls of the operating system that can fail. A write has its content.
pub data Call : Type 0 where
  read_mounts : Call
  read_file make_dir remove_file stat_file stat_device : String → Call
  open_device copy_image close_device : String → Call
  write_file : String → String → Call
  command : String → List String → Call

-- os.WriteFile: done, EROFS, or another error, which leaves what it leaves.
pub data WriteResult : Type 0 where
  written read_only : WriteResult
  failed : Option String → WriteResult

-- The files at the root of one mount point of the boot partition.
pub record BootDir : Type 0 where
  pub mender_boot_part : Option String
  pub cmdline : Option String
  pub cmdline_prev : Option String

-- The files under /data/ota by their paths, the boot partition by its mount point, and the partitions
-- that `partitions` has cached.
pub record World : Type 0 where
  pub trace : List Call
  pub files : String → Option String
  pub boot : String → BootDir
  pub active : String
  pub inactive : String

-- The configuration of the device, and what the system answers, given the calls so far. Which device
-- files there are and what they link to does not change while the agent runs.
pub record System : Type 0 where
  pub rootfs_part_a : String
  pub rootfs_part_b : String
  pub fails : List Call → Bool
  pub write_result : List Call → WriteResult
  pub mounts : List Call → Option String
  pub exists : String → Bool
  pub resolve : String → Option String
  pub in_path : String → Bool

abbrev pub M : Type 0 → Type 0
M A = World → A × World

infixl 5 ◌>>=◌ ◌>>◌
unfoldable pub ◌>>=◌ : {A B : Type 0} → M A → (A → M B) → M B
◌>>=◌ m f w = let (a, w') = m w in f a w'

unfoldable pub ◌>>◌ : {A B : Type 0} → M A → M B → M B
m >> k = m >>= λ _. k

unfoldable pub pure : {A : Type 0} → A → M A
pure a w = (a, w)

unfoldable pub gets : {A : Type 0} → (World → A) → M A
gets f w = (f w, w)

unfoldable pub modify : (World → World) → M (Unit {0})
modify f w = (tt, f w)

-- Makes a call, and reads the answer off the calls so far.
unfoldable pub ask : {A : Type 0} → Call → (List Call → A) → M A
ask c answer w = let calls = c ∷ w.trace in (answer calls, record w { trace = calls })

-- Goes on with what is at hand.
unfoldable pub then_if : Bool → M (Unit {0}) → M (Unit {0})
then_if true m = m
then_if false m = pure tt

-- What a write leaves in the file.
abbrev pub left_by : WriteResult → String → Option String → Option String
left_by WriteResult.written content old = some content
left_by WriteResult.read_only content old = old
left_by (WriteResult.failed left) content old = left

unfoldable pub set_file : String → Option String → World → World
set_file path content w = record w { files = λ q. if q =ₛ path then content else w.files q }

unfoldable pub set_boot : String → BootDir → World → World
set_boot at dir w = record w { boot = λ q. if q =ₛ at then dir else w.boot q }

abbrev pub is_written : WriteResult → Bool
is_written WriteResult.written = true
is_written _ = false

module _ (sys : System) where
  -- True is an error.
  abbrev pub try : Call → M Bool
  try c = ask c sys.fails

  -- os.WriteFile to a path under /data
  unfoldable pub write_data : String → String → M WriteResult
  write_data path content = do
    r ← ask (Call.write_file path content) sys.write_result
    modify (λ w. set_file path (left_by r content (w.files path)) w)
    pure r
