-- ===== src/StateScripts/Launcher.antt =====
-- statescript/executor.go: the execution of the scripts, their retries, and what becomes of errors.
use ota_pulse.Prelude.{
  ℕ, zero, suc, ◌+◌, ◌-◌, ◌*◌, String, Bool, true, false, not, ◌&&◌, ◌||◌, Option, none, some, List,
  [], ◌∷◌, leb, ◌==◌, ◌=ₛ◌, any, keep, if◌then◌else◌,
}
use ota_pulse.Prelude.Int.{ℤ, pos, eq_ℤ}
use ota_pulse.StateScripts.Names.{is_script_of}

-- A file of a directory of scripts.
pub record File : Type 0 where
  pub name : String
  pub executable : Bool

pub data Call : Type 0 where
  run report_start report_end : String → Call
  sleep : ℕ → Call

-- ioutil.ReadDir, whose list is sorted by name.
pub data Directory : Type 0 where
  missing unreadable : Directory
  entries : List File → Directory

-- The configuration, in seconds, the two directories with the number in their version file, if it can
-- be read, and the exit code and the time after the calls so far.
pub record Launcher : Type 0 where
  pub supported_script_versions : List ℕ
  pub retry_interval : ℕ
  pub retry_timeout : ℕ
  pub art_scripts : Directory
  pub rootfs_scripts : Directory
  pub art_version : Option ℕ
  pub rootfs_version : Option ℕ
  pub exit_code : List Call → ℤ
  pub now : List Call → ℕ

abbrev pub second : ℕ
second = 1_000_000_000

-- exitRetryLater
abbrev pub exit_retry_later : ℤ
exit_retry_later = pos 21

abbrev pub get_retry_interval : Launcher → ℕ
get_retry_interval l = if l.retry_interval == 0 then 60 * second else l.retry_interval * second

abbrev pub get_retry_timeout : Launcher → ℕ
get_retry_timeout l = if l.retry_timeout == 0 then 1800 * second else l.retry_timeout * second

-- `matchVersion`: true is an error. Without a version file the version is 0.
unfoldable pub match_version : ℕ → List ℕ → Bool → Bool
match_version actual supported has_scripts = has_scripts && not (any (λ v. v == actual) supported)

abbrev pub has_version_file : List File → Bool
has_version_file files = any (λ f. f.name =ₛ "version") files

abbrev pub has_scripts : List File → Bool
has_scripts [] = false
has_scripts (f ∷ fs) = true

-- The version, unless there is a file of it that cannot be read.
abbrev pub version_of : List File → Option ℕ → Option ℕ
version_of files version = if has_version_file files then version else some 0

abbrev pub matched : List ℕ → List File → Option ℕ → Option (List File)
matched supported scripts none = none
matched supported scripts (some version) =
    if match_version version supported (has_scripts scripts) then none else some scripts

unfoldable pub scripts_in : List ℕ → String → String → Directory → Option ℕ → Option (List File)
scripts_in supported state action Directory.missing version = some []
scripts_in supported state action Directory.unreadable version = none
scripts_in supported state action (Directory.entries files) version =
    matched supported (keep (λ f. is_script_of state action f.name) files)
      (version_of files version)

-- `get`: no scripts is an error.
unfoldable pub get : Launcher → String → String → Option (List File)
get l state action =
    if state =ₛ "Idle" || state =ₛ "Sync" || state =ₛ "Download"
    then scripts_in l.supported_script_versions state action l.rootfs_scripts l.rootfs_version
    else scripts_in l.supported_script_versions state action l.art_scripts l.art_version

-- `CheckRootfsScriptsVersion`: true is an error. A directory without files needs no version.
abbrev version_fails : List ℕ → Option ℕ → Bool
version_fails supported none = true
version_fails supported (some version) = not (any (λ v. v == version) supported)

unfoldable pub check_rootfs_scripts_version : Launcher → Bool
check_rootfs_scripts_version l = elim l.rootfs_scripts [
  | Directory.missing ↦ false
  | Directory.unreadable ↦ true
  | Directory.entries files ↦
      has_scripts files
      && (not (has_version_file files)
          || version_fails l.supported_script_versions l.rootfs_version)
]

module _ (l : Launcher) (ignore_error : Bool) where
  -- The result, of which true is an error, with the calls; `none` if the fuel is used up.
  abbrev pub Result : Type 0
  Result = Option (Bool × List Call)

  abbrev failed : List Call → Result
  failed calls = some (not ignore_error, calls)

  -- `executeScript`, from the time at which it began.
  unfoldable pub execute_script : ℕ → ℕ → String → List Call → Result
  execute_script zero start name calls = none
  execute_script (suc fuel) start name calls =
      let ran = run name ∷ calls in
      let again = execute_script fuel start name (sleep (get_retry_interval l) ∷ ran) in
      if eq_ℤ (l.exit_code ran) (pos 0)
      then some (false, ran)
      else if eq_ℤ (l.exit_code ran) exit_retry_later
          && leb (l.now ran - start) (get_retry_timeout l)
      then again
      else failed ran

  -- A report that fails is only logged.
  abbrev pub report : Bool → Call → List Call → List Call
  report true c calls = c ∷ calls
  report false c calls = calls

  abbrev pub go_on : (List Call → Result) → (List Call → List Call) → Result → Result
  go_on rest reported none = none
  go_on rest reported (some (true, calls)) = some (true, reported calls)
  go_on rest reported (some (false, calls)) = rest (reported calls)

  -- The scripts in their order, up to the first error.
  unfoldable pub execute_scripts : Bool → List File → List Call → Result
  execute_scripts reports [] calls = some (false, calls)
  execute_scripts reports (f ∷ fs) calls =
      let rest = execute_scripts reports fs in
      let started = report reports (report_start f.name) calls in
      if not f.executable
      then (if ignore_error then rest calls else some (true, calls))
      else go_on rest (report reports (report_end f.name))
          (execute_script (get_retry_timeout l + 2) (l.now started) f.name started)

  abbrev pub execute_got : Bool → Option (List File) → List Call → Result
  execute_got reports none calls = failed calls
  execute_got reports (some files) calls = execute_scripts reports files calls

  -- `ExecuteAll`, whose last argument may be nil, without reports.
  unfoldable pub execute_all : String → String → Bool → List Call → Result
  execute_all state action reports calls = execute_got reports (get l state action) calls
