-- ===== src/Installer/UBootEnv.antt =====
-- installer/bootenv.go `UBootEnv`: the boot environment behind the tools of the boot loader.
pub mod Lines
use Prim.Native.Char.{code}
use Prim.Native.String.{len, ◌++◌ as ◌++ₛ◌}
use ota_pulse.Prelude.{
  ℕ, leb, ◌||◌, String, Bool, true, false, not, ◌&&◌, Option, none, some, List, [], ◌∷◌, ◌==◌, ◌=ₛ◌,
  lookup, insert, map, if◌then◌else◌,
}
use ota_pulse.Installer.Text.{is_empty, split_where}
use ota_pulse.Installer.World.{Call, World, M, ◌>>=◌, ◌>>◌, pure, ask}
use ota_pulse.Installer.BootEnv.{BootVars, BootEnv}

-- What becomes of the start of a program.
pub data Start : Type 0 where
  started not_found cannot_start : Start

-- The tools, by their names in the order in which they are tried, and what they answer: whether they
-- start, the text they print, whether a line is refused, and whether they fail at their end.
pub record Tools : Type 0 where
  pub set_command : List String
  pub get_command : List String
  pub starts : List Call → Start
  pub output : List Call → String
  pub refuses : List Call → Bool
  pub fails : List Call → Bool

abbrev pub mender_u_boot_separator_probe : String
mender_u_boot_separator_probe = "mender_uboot_separator"

abbrev pub standard_separator : String
standard_separator = "="

abbrev pub legacy_separator : String
legacy_separator = " "

-- bufio.MaxScanTokenSize: a line that does not fit, with its end, ends the scan.
abbrev pub max_scan_token_size : ℕ
max_scan_token_size = 65536

-- The carriage return at the end of a line is left out.
unfoldable pub drop_cr : String → String
drop_cr String.[] = ""
drop_cr (String.◌∷◌ c s) =
    let rest = drop_cr s in if is_empty s && code c == 13 then "" else String.◌∷◌ c rest

-- The lines of the pieces between line ends; after the last line end only a piece that is not empty
-- is a line.
unfoldable pub scanned : List String → List String
unfolding drop_cr
scanned [] = []
scanned (w ∷ []) = if is_empty w || leb max_scan_token_size (len w) then [] else drop_cr w ∷ []
scanned (w ∷ v ∷ ws) =
    let rest = scanned (v ∷ ws) in if leb max_scan_token_size (len w) then [] else drop_cr w ∷ rest

-- bufio.Scanner with bufio.ScanLines
unfoldable pub scan_lines : String → List String
unfolding scanned
scan_lines text = scanned (split_where (λ c. code c == 10) text)

-- A line of two parts is a variable.
abbrev pub add_line : BootVars → List String → Option BootVars
add_line vars (key ∷ value ∷ []) = some (insert key value vars)
add_line vars _ = none

-- The variables in the lines that a tool prints; empty lines are passed over, and another line that is
-- not a variable is an error.
unfoldable pub parse_lines : BootVars → List String → Option BootVars
parse_lines vars [] = some vars
parse_lines vars (line ∷ rest) =
    if is_empty line
    then parse_lines vars rest
    else elim (add_line vars (split_where (λ c. code c == b'=') line)) [
      | none ↦ none
      | some vars' ↦ parse_lines vars' rest
    ]

unfoldable pub render : String → String × String → String
render separator (key, value) = (key ++ₛ (separator ++ₛ value)) ++ₛ "\n"

module _ (tools : Tools) where
  -- Starts the first program that there is; true is an error.
  unfoldable pub start_first : List String → List String → M Bool
  start_first [] args = pure true
  start_first (exe ∷ rest) args = do
    start ← ask (Call.command exe args) tools.starts
    elim start [
      | Start.started ↦ pure false
      | Start.not_found ↦ start_first rest args
      | Start.cannot_start ↦ pure true
    ]

  -- `cmd.Wait`
  abbrev wait : M Bool
  wait = ask (Call.command "wait" []) tools.fails

  unfoldable pub get_environment_variable : List String → M (Option BootVars)
  get_environment_variable names = do
    not_started ← start_first tools.get_command names
    if not_started then pure none else do
      printed ← ask (Call.read_file "stdout") tools.output
      failed ← wait
      pure (if failed then none else parse_lines [] (scan_lines printed))

  abbrev pub is_one : Option String → Bool
  is_one none = false
  is_one (some value) = value =ₛ "1"

  abbrev has_one : String → Option BootVars → Bool
  has_one name none = false
  has_one name (some vars) = is_one (lookup name vars)

  -- True is an error: the boot loader has not written its variable.
  unfoldable pub check_env_canary : M Bool
  check_env_canary = do
    asked ← get_environment_variable ("mender_check_saveenv_canary" ∷ [])
    if not (has_one "mender_check_saveenv_canary" asked) then pure false else do
      answer ← get_environment_variable ("mender_saveenv_canary" ∷ [])
      pure (not (has_one "mender_saveenv_canary" answer))

  unfoldable pub read_env : List String → M (Option BootVars)
  read_env names = do
    broken ← check_env_canary
    if broken then pure none else get_environment_variable names

  -- Writes the lines to the tool, up to the first that is refused; true is an error.
  unfoldable pub send_lines : List String → M Bool
  send_lines [] = pure false
  send_lines (line ∷ rest) = do
    refused ← ask (Call.write_file "stdin" line) tools.refuses
    if refused then pure true else send_lines rest

  unfoldable pub write_env_impl : BootVars → String → M Bool
  write_env_impl vars separator = do
    not_started ← start_first tools.set_command ("-s" ∷ "-" ∷ [])
    if not_started then pure true else do
      refused ← send_lines (map (render separator) vars)
      if refused then pure true else wait

  abbrev legacy : BootVars → M (Option String)
  legacy vars =
      if not (is_one (lookup mender_u_boot_separator_probe vars))
      then pure (some standard_separator)
      else do
        failed ← write_env_impl ((mender_u_boot_separator_probe, "") ∷ []) legacy_separator
        pure (if failed then none else some legacy_separator)

  abbrev probed : Option BootVars → M (Option String)
  probed none = pure none
  probed (some vars) = legacy vars

  -- The separator that the tool takes; none is an error.
  unfoldable pub probe_separator : M (Option String)
  probe_separator = do
    failed ← write_env_impl ((mender_u_boot_separator_probe, "1") ∷ []) legacy_separator
    if failed then pure none else (read_env (mender_u_boot_separator_probe ∷ []) >>= probed)

  abbrev write_with : BootVars → Option String → M Bool
  write_with vars none = pure true
  write_with vars (some separator) = write_env_impl vars separator

  unfoldable pub write_env : BootVars → M Bool
  write_env vars = do
    broken ← check_env_canary
    if broken then pure true else (probe_separator >>= write_with vars)

  -- It has neither of the two further methods.
  abbrev pub u_boot_env : BootEnv
  u_boot_env = record {
    read_env = read_env;
    write_env = write_env;
    reconcile_to_booted_slot = pure tt;
    clear_direct_boot_backup = pure tt;
  }
