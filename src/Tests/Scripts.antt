-- ===== src/Tests/Scripts.antt =====
-- A run of state scripts, of which one asks for a retry, and a line of the boot environment.
use ota_pulse.Prelude.{
  arith, ℕ, ◌+◌, ◌≤◌, ◌≡◌, refl, true, false, some, none, List, [], ◌∷◌, keep, map, arith,
}
use ota_pulse.Prelude.Int.{ℤ, pos}
use ota_pulse.Installer.Text.{split_where}
use ota_pulse.Installer.UBootEnv.{parse_lines, render, scan_lines}
use ota_pulse.Installer.UBootEnv.Lines.{
  IsWord, IsLine, end, char, insert_all, text_of, parse_lines-render,
}
use ota_pulse.StateScripts.Names.{contains_text, all_chars, is_name, matches_format, is_script_of}
use ota_pulse.StateScripts.Launcher.{
  File, Call, Directory, Launcher, run, sleep, report_start, report_end, get, scripts_in,
  match_version, execute_script, execute_scripts, execute_all,
}
use ota_pulse.StateScripts.Ends.{HasClock, Ends, execute_all-Ends}
use ota_pulse.StateScripts.Chosen.{Runs, execute_all-Runs}

abbrev files : List File
files =
    record { name = "ArtifactInstall_Enter_05_wifi"; executable = true }
    ∷ record { name = "ArtifactInstall_Enter_5"; executable = true }
    ∷ record { name = "ArtifactInstall_Leave_01"; executable = true }
    ∷ record { name = "version"; executable = false }
    ∷ []

-- A sleep takes its time, and all else none.
abbrev time : List Call → ℕ
time [] = 0
time (sleep d ∷ calls) = time calls + d
time (_ ∷ calls) = time calls

-- A script asks for a retry until it has slept.
abbrev exit_code : List Call → ℤ
exit_code (run name ∷ sleep d ∷ calls) = pos 0
exit_code calls = pos 21

abbrev launcher : Launcher
launcher = record {
  supported_script_versions = 2 ∷ 3 ∷ [];
  retry_interval = 0;
  retry_timeout = 0;
  art_scripts = Directory.entries files;
  rootfs_scripts = Directory.missing;
  art_version = some 3;
  rootfs_version = none;
  exit_code = exit_code;
  now = time;
}

launcher-HasClock : HasClock launcher
launcher-HasClock = record { forward = forward; sleeps = λ d calls. ground arith }
  where
    forward : (c : Call) (calls : List Call) → time calls ≤ time (c ∷ calls)
    forward (run name) calls = ground arith
    forward (report_start name) calls = ground arith
    forward (report_end name) calls = ground arith
    forward (sleep d) calls = ground arith

execute_all-Ends_example : Ends false (execute_all launcher false "ArtifactInstall" "Enter" true [])
execute_all-Ends_example =
    execute_all-Ends launcher false "ArtifactInstall" "Enter" true [] launcher-HasClock

-- The second file has one digit, the third another action.
retried :
    execute_all launcher false "ArtifactInstall" "Enter" false []
    ≡ some (
      false,
      run "ArtifactInstall_Enter_05_wifi"
          ∷ sleep 60_000_000_000
          ∷ run "ArtifactInstall_Enter_05_wifi"
          ∷ [],
    )
unfolding execute_all get scripts_in match_version keep is_script_of contains_text matches_format
    is_name all_chars split_where execute_scripts execute_script
retried = refl

execute_all-Runs_example : Runs "ArtifactInstall" "Enter" (
    run "ArtifactInstall_Enter_05_wifi"
    ∷ sleep 60_000_000_000
    ∷ run "ArtifactInstall_Enter_05_wifi"
    ∷ [])
execute_all-Runs_example = execute_all-Runs launcher false "ArtifactInstall" "Enter" false retried

part_IsWord : IsWord "part"
part_IsWord = record {
  no_equals = char refl (char refl (char refl (char refl end)));
  no_line_end = char refl (char refl (char refl (char refl end)));
  no_cr = char refl (char refl (char refl (char refl end)));
}

three_IsWord : IsWord "3"
three_IsWord = record {
  no_equals = char refl end;
  no_line_end = char refl end;
  no_cr = char refl end;
}

part_IsLine : IsLine ("part", "3")
part_IsLine = record { key_word = part_IsWord; value_word = three_IsWord; fits = omega arith }

parse_lines-render_example :
    parse_lines [] (scan_lines (text_of (map (render "=") (("part", "3") ∷ []))))
    ≡ some (insert_all [] (("part", "3") ∷ []))
parse_lines-render_example = parse_lines-render [] (("part", "3") ∷ []) (part_IsLine, tt)
