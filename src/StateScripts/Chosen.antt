-- ===== src/StateScripts/Chosen.antt =====
-- statescript/executor.go: which scripts are run.
use mathlib.Core.Path.{subst}
use ota_pulse.Prelude.{
  ℕ, zero, suc, ◌+◌, ◌-◌, ◌≡◌, refl, String, Bool, true, false, not, ◌&&◌, ◌||◌, Option, none, some,
  List, [], ◌∷◌, leb, ◌=ₛ◌, if◌then◌else◌, All, keep,
}
use ota_pulse.Prelude.Int.{pos, eq_ℤ}
use ota_pulse.StateScripts.Names.{is_script_of}
use ota_pulse.StateScripts.Names.Format.{IsScriptName, is_script_of-IsScriptName}
use ota_pulse.StateScripts.Launcher.{
  File, Call, Directory, Launcher, get, scripts_in, matched, match_version, get_retry_interval,
  get_retry_timeout, exit_retry_later, Result, run, sleep, report_start, report_end, execute_script,
  execute_scripts, execute_all, execute_got, go_on, report, version_of, has_scripts,
}

-- The names of the scripts that were run belong to the state and the action.
unfoldable pub Runs : String → String → List Call → Type 0
Runs state action [] = Unit
Runs state action (run name ∷ calls) = IsScriptName state action name × Runs state action calls
Runs state action (c ∷ calls) = Runs state action calls

module _ (state action : String) where
  IsScript : File → Type 0
  IsScript f = IsScriptName state action f.name

  abbrev AllScripts : Option (List File) → Type 0
  AllScripts none = Unit
  AllScripts (some files) = All IsScript files

  put_if :
      (f : File) (b : Bool) (files : List File)
      → is_script_of state action f.name ≡ b
      → All IsScript files
      → All IsScript (if b then f ∷ files else files)
  unfolding IsScript
  put_if f true files e h = (is_script_of-IsScriptName state action f.name e, h)
  put_if f false files e h = h

  keep-AllScripts :
      (files : List File) → All IsScript (keep (λ f. is_script_of state action f.name) files)
  unfolding keep
  keep-AllScripts [] = tt
  keep-AllScripts (f ∷ fs) =
      put_if f (is_script_of state action f.name) (keep (λ f. is_script_of state action f.name) fs)
        refl (keep-AllScripts fs)

  matched-AllScripts :
      (supported : List ℕ) (files : List File) (version : Option ℕ)
      → All IsScript files
      → AllScripts (matched supported files version)
  matched-AllScripts supported files none h = tt
  matched-AllScripts supported files (some version) h =
      go (match_version version supported (has_scripts files))
    where
      go : (b : Bool) → AllScripts (if b then none else some files)
      go true = tt
      go false = h

  scripts_in-AllScripts :
      (supported : List ℕ) (d : Directory) (version : Option ℕ)
      → AllScripts (scripts_in supported state action d version)
  unfolding scripts_in
  scripts_in-AllScripts supported Directory.missing version = tt
  scripts_in-AllScripts supported Directory.unreadable version = tt
  scripts_in-AllScripts supported (Directory.entries files) version =
      matched-AllScripts supported (keep (λ f. is_script_of state action f.name) files)
        (version_of files version) (keep-AllScripts files)

  get-AllScripts : (l : Launcher) → AllScripts (get l state action)
  unfolding get
  get-AllScripts l = either (state =ₛ "Idle" || state =ₛ "Sync" || state =ₛ "Download")
    where
      either :
          (b : Bool)
          → AllScripts (
              if b
              then scripts_in l.supported_script_versions state action l.rootfs_scripts
                  l.rootfs_version
              else scripts_in l.supported_script_versions state action l.art_scripts l.art_version)
      either true = scripts_in-AllScripts _ l.rootfs_scripts l.rootfs_version
      either false = scripts_in-AllScripts _ l.art_scripts l.art_version

  module _ (l : Launcher) (ignore_error : Bool) where
    abbrev OnlyRuns : Option (Bool × List Call) → Type 0
    OnlyRuns none = Unit
    OnlyRuns (some (failed, calls)) = Runs state action calls

    if-OnlyRuns :
        (b : Bool) (o o' : Result l ignore_error)
        → OnlyRuns o
        → OnlyRuns o'
        → OnlyRuns (if b then o else o')
    if-OnlyRuns true o o' h h' = h
    if-OnlyRuns false o o' h h' = h'

    report-Runs :
        (b : Bool) (calls : List Call)
        → (name : String) → Runs state action calls
        → Runs state action (report l ignore_error b (report_start name) calls)
          × Runs state action (report l ignore_error b (report_end name) calls)
    unfolding Runs
    report-Runs true calls name h = (h, h)
    report-Runs false calls name h = (h, h)

    execute_script-OnlyRuns :
        (fuel start : ℕ) (name : String) (calls : List Call)
        → IsScriptName state action name
        → Runs state action calls
        → OnlyRuns (execute_script l ignore_error fuel start name calls)
    unfolding execute_script Runs
    execute_script-OnlyRuns zero start name calls e h = tt
    execute_script-OnlyRuns (suc fuel) start name calls e h =
        if-OnlyRuns (eq_ℤ (l.exit_code (run name ∷ calls)) (pos 0)) (some (false, run name ∷ calls))
          _ (e, h)
          (if-OnlyRuns
            (eq_ℤ (l.exit_code (run name ∷ calls)) exit_retry_later
              && leb (l.now (run name ∷ calls) - start) (get_retry_timeout l))
            (execute_script l ignore_error fuel start name
              (sleep (get_retry_interval l) ∷ run name ∷ calls))
            (some (not ignore_error, run name ∷ calls))
            (execute_script-OnlyRuns fuel start name
              (sleep (get_retry_interval l) ∷ run name ∷ calls) e (e, h))
            (e, h))

    go_on-OnlyRuns :
        (rest : List Call → Result l ignore_error) (reported : List Call → List Call)
        (o : Result l ignore_error)
        → ((calls : List Call) → Runs state action calls → Runs state action (reported calls))
        → ((calls : List Call) → Runs state action calls → OnlyRuns (rest calls))
        → OnlyRuns o
        → OnlyRuns (go_on l ignore_error rest reported o)
    go_on-OnlyRuns rest reported none r h p = tt
    go_on-OnlyRuns rest reported (some (true, calls)) r h p = r calls p
    go_on-OnlyRuns rest reported (some (false, calls)) r h p = h (reported calls) (r calls p)

    execute_scripts-OnlyRuns :
        (reports : Bool) (files : List File) (calls : List Call)
        → All IsScript files
        → Runs state action calls
        → OnlyRuns (execute_scripts l ignore_error reports files calls)
    unfolding execute_scripts IsScript
    execute_scripts-OnlyRuns reports [] calls a h = h
    execute_scripts-OnlyRuns reports (f ∷ fs) calls a h =
        if-OnlyRuns (not f.executable) _ _
          (if-OnlyRuns ignore_error (execute_scripts l ignore_error reports fs calls)
            (some (true, calls)) (execute_scripts-OnlyRuns reports fs calls a.1 h) h)
          (go_on-OnlyRuns (execute_scripts l ignore_error reports fs)
            (report l ignore_error reports (report_end f.name))
            (execute_script l ignore_error (get_retry_timeout l + 2)
              (l.now (report l ignore_error reports (report_start f.name) calls)) f.name
              (report l ignore_error reports (report_start f.name) calls))
            (λ cs k. (report-Runs reports cs f.name k).1)
            (λ cs k. execute_scripts-OnlyRuns reports fs cs a.1 k)
            (execute_script-OnlyRuns (get_retry_timeout l + 2) _ f.name
              (report l ignore_error reports (report_start f.name) calls) a.0
              (report-Runs reports calls f.name h).0))

    execute_got-OnlyRuns :
        (reports : Bool) (got : Option (List File))
        → AllScripts got
        → OnlyRuns (execute_got l ignore_error reports got [])
    unfolding Runs
    execute_got-OnlyRuns reports none a = tt
    execute_got-OnlyRuns reports (some files) a = execute_scripts-OnlyRuns reports files [] a tt

-- `ExecuteAll` runs no other files than those in whose name stand the state with an underscore after
-- it, and the action, and that have, at underscores, the parts of a script's name: a first that is
-- not empty, "Enter", "Leave" or "Error", a number of two digits, and others after it or not.
pub execute_all-Runs :
    (l : Launcher) (ignore_error : Bool) (state action : String) (reports : Bool) {failed : Bool}
    {calls : List Call}
    → execute_all l ignore_error state action reports [] ≡ some (failed, calls)
    → Runs state action calls
unfolding execute_all
execute_all-Runs l ignore_error state action reports e =
    subst (OnlyRuns state action l ignore_error) e (
      execute_got-OnlyRuns state action l ignore_error reports (get l state action)
        (get-AllScripts state action l))
