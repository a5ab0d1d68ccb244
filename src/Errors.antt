-- ===== src/Errors.antt =====
-- The sentinel errors that the agent compares by identity, and app/error.go. An error that is only
-- logged or passed on is `other`: its text, which no code reads, is dropped.
use ota_pulse.Prelude.{Bool, true, false}

pub data Err : Type 0 where
  max_state_data_store_count_exceeded not_exist no_deployment_available deployment_aborted : Err
  no_artifact_name no_update_maps max_retries_exceeded other : Err

-- `errors.Is` and `==` on the sentinels that the handlers ask for.
abbrev pub is_max_store_count : Err → Bool
is_max_store_count max_state_data_store_count_exceeded = true
is_max_store_count _ = false

abbrev pub is_not_exist : Err → Bool
is_not_exist not_exist = true
is_not_exist _ = false

abbrev pub is_no_deployment : Err → Bool
is_no_deployment no_deployment_available = true
is_no_deployment _ = false

abbrev pub is_deployment_aborted : Err → Bool
is_deployment_aborted deployment_aborted = true
is_deployment_aborted _ = false

abbrev pub is_no_artifact_name : Err → Bool
is_no_artifact_name no_artifact_name = true
is_no_artifact_name _ = false

pub record MenderError : Type 0 where
  pub cause : Err
  pub fatal : Bool

abbrev pub new_fatal_error : Err → MenderError
new_fatal_error e = record { cause = e; fatal = true }

abbrev pub new_transient_error : Err → MenderError
new_transient_error e = record { cause = e; fatal = false }
