-- ===== src/Agent/Transition.antt =====
-- app/transition.go: the transitions of the agent, and which state scripts belong to them.
use Prim.Native.Char.{Char, code}
use ota_pulse.Prelude.{
  ℕ, String, Bool, true, false, not, ◌&&◌, List, [], ◌∷◌, ◌==◌, ◌=ₛ◌, if◌then◌else◌,
}

pub data Transition : Type 0 where
  to_none to_idle to_sync to_error to_download_enter to_download_leave : Transition
  to_artifact_install to_artifact_reboot_enter to_artifact_reboot_leave : Transition
  to_artifact_commit_enter to_artifact_commit_leave to_artifact_rollback : Transition
  to_artifact_rollback_reboot_enter to_artifact_rollback_reboot_leave : Transition
  to_artifact_failure : Transition

-- The map `transitionNames`.
unfoldable pub transition_name : Transition → String
transition_name to_none = "none"
transition_name to_idle = "Idle"
transition_name to_sync = "Sync"
transition_name to_error = "Error"
transition_name to_download_enter = "Download_Enter"
transition_name to_download_leave = "Download_Leave"
transition_name to_artifact_install = "ArtifactInstall"
transition_name to_artifact_reboot_enter = "ArtifactReboot_Enter"
transition_name to_artifact_reboot_leave = "ArtifactReboot_Leave"
transition_name to_artifact_commit_enter = "ArtifactCommit_Enter"
transition_name to_artifact_commit_leave = "ArtifactCommit_Leave"
transition_name to_artifact_rollback = "ArtifactRollback"
transition_name to_artifact_rollback_reboot_enter = "ArtifactRollbackReboot_Enter"
transition_name to_artifact_rollback_reboot_leave = "ArtifactRollbackReboot_Leave"
transition_name to_artifact_failure = "ArtifactFailure"

abbrev pub is_to_error : Transition → Bool
is_to_error to_error = true
is_to_error to_artifact_failure = true
is_to_error to_artifact_rollback = true
is_to_error to_artifact_rollback_reboot_enter = true
is_to_error to_artifact_rollback_reboot_leave = true
is_to_error _ = false

abbrev pub ignore_errors : Transition → Bool
ignore_errors to_idle = true
ignore_errors to_artifact_rollback = true
ignore_errors to_artifact_rollback_reboot_enter = true
ignore_errors to_artifact_rollback_reboot_leave = true
ignore_errors to_artifact_failure = true
ignore_errors _ = false

-- The value of the constant, by which `!=` compares.
abbrev pub iota : Transition → ℕ
iota to_none = 0
iota to_idle = 1
iota to_sync = 2
iota to_error = 3
iota to_download_enter = 4
iota to_download_leave = 5
iota to_artifact_install = 6
iota to_artifact_reboot_enter = 7
iota to_artifact_reboot_leave = 8
iota to_artifact_commit_enter = 9
iota to_artifact_commit_leave = 10
iota to_artifact_rollback = 11
iota to_artifact_rollback_reboot_enter = 12
iota to_artifact_rollback_reboot_leave = 13
iota to_artifact_failure = 14

abbrev pub differs : Transition → Transition → Bool
differs t u = not (iota t == iota u)

abbrev put_first : Char → List String → List String
put_first c [] = String.◌∷◌ c String.[] ∷ []
put_first c (w ∷ ws) = String.◌∷◌ c w ∷ ws

-- strings.Split at "_": never empty.
unfoldable pub split_underscore : String → List String
split_underscore String.[] = String.[] ∷ []
split_underscore (String.◌∷◌ c s) =
    let rest = split_underscore s in if code c == b'_' then String.[] ∷ rest else put_first c rest

-- A name of two parts is skipped, unless the action is its second part or "Error".
abbrev script_name : String → String → List String → String
script_name name action (first ∷ second ∷ []) =
    if not (action =ₛ "Error") && not (second =ₛ action) then "" else first
script_name name action _ = name

-- `getName`
unfoldable pub get_name : Transition → String → String
unfolding transition_name split_underscore
get_name t action = script_name (transition_name t) action (split_underscore (transition_name t))
