-- ===== src/Datastore/StateName.antt =====
-- datastore/statedata.go: the enumeration `MenderState` and the names under which it is stored.
use ota_pulse.Prelude.{String, ◌≡◌, refl, Option, none, some, List, [], ◌∷◌, ◌=ₛ◌, if◌then◌else◌}

pub data MenderState : Type 0 where
  init idle authorize authorize_wait inventory_update inventory_update_retry_wait : MenderState
  check_wait update_check update_fetch update_store update_after_store : MenderState
  update_install fetch_store_retry_wait update_verify : MenderState
  update_pre_commit_status_report_retry update_commit update_after_first_commit : MenderState
  update_after_commit update_status_report status_report_retry reboot : MenderState
  verify_reboot after_reboot rollback rollback_reboot verify_rollback_reboot : MenderState
  after_rollback_reboot error update_error update_cleanup done update_control : MenderState
  update_control_pause fetch_update_control fetch_retry_update_control : MenderState
  report_status_error : MenderState

-- The map `stateNames`, which has an entry for every state.
unfoldable pub state_name : MenderState → String
state_name init = "init"
state_name idle = "idle"
state_name authorize = "authorize"
state_name authorize_wait = "authorize-wait"
state_name inventory_update = "inventory-update"
state_name inventory_update_retry_wait = "inventory-update-retry-wait"
state_name check_wait = "check-wait"
state_name update_check = "update-check"
state_name update_fetch = "update-fetch"
state_name update_store = "update-store"
state_name update_after_store = "update-after-store"
state_name update_install = "update-install"
state_name fetch_store_retry_wait = "fetch-install-retry-wait"
state_name update_verify = "update-verify"
state_name update_commit = "update-commit"
state_name update_pre_commit_status_report_retry = "update-pre-commit-status-report-retry"
state_name update_after_first_commit = "update-after-first-commit"
state_name update_after_commit = "update-after-commit"
state_name update_status_report = "update-status-report"
state_name status_report_retry = "update-retry-report"
state_name reboot = "reboot"
state_name verify_reboot = "verify-reboot"
state_name after_reboot = "after-reboot"
state_name rollback = "rollback"
state_name rollback_reboot = "rollback-reboot"
state_name verify_rollback_reboot = "verify-rollback-reboot"
state_name after_rollback_reboot = "after-rollback-reboot"
state_name error = "error"
state_name update_error = "update-error"
state_name update_cleanup = "cleanup"
state_name done = "finished"
state_name update_control = "mender-update-control"
state_name update_control_pause = "mender-update-control-pause"
state_name fetch_update_control = "mender-update-control-refresh-maps"
state_name fetch_retry_update_control = "mender-update-control-retry-refresh-maps"
state_name report_status_error = "status-report-error"

-- The keys of `stateNames`, in the order of its entries.
abbrev all_states : List MenderState
all_states =
    init ∷ idle ∷ authorize ∷ authorize_wait ∷ inventory_update ∷ inventory_update_retry_wait
    ∷ check_wait ∷ update_check ∷ update_fetch ∷ update_store ∷ update_after_store ∷ update_install
    ∷ fetch_store_retry_wait ∷ update_verify ∷ update_commit ∷ update_pre_commit_status_report_retry
    ∷ update_after_first_commit ∷ update_after_commit ∷ update_status_report ∷ status_report_retry
    ∷ reboot ∷ verify_reboot ∷ after_reboot ∷ rollback ∷ rollback_reboot ∷ verify_rollback_reboot
    ∷ after_rollback_reboot ∷ error ∷ update_error ∷ update_cleanup ∷ done ∷ update_control
    ∷ update_control_pause ∷ fetch_update_control ∷ fetch_retry_update_control ∷ report_status_error
    ∷ []

find_state : List MenderState → String → Option MenderState
find_state [] s = none
find_state (k ∷ ks) s = if state_name k =ₛ s then some k else find_state ks s

-- `UnmarshalJSON`: the key whose name is the text read; `none` is the error "unknown state".
pub unmarshal_state : String → Option MenderState
unfolding find_state state_name
unmarshal_state s = find_state all_states s

-- Every state that is stored is read back as itself, so no two states share a name.
pub unmarshal_state-state_name : (s : MenderState) → unmarshal_state (state_name s) ≡ some s
unfolding unmarshal_state
unmarshal_state-state_name init = refl
unmarshal_state-state_name _ = refl
