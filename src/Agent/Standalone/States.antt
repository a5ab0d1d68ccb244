-- ===== src/Agent/Standalone/States.antt =====
-- app/standalone.go: the states of an artifact that is handled from the command line, up to its
-- commit and its rollback.
use Prim.Native.String.{◌++◌ as ◌++ₛ◌}
use ota_pulse.Prelude.{
  ℕ, zero, suc, String, Bool, true, false, not, ◌&&◌, ◌||◌, Option, none, some, List, [], ◌∷◌, ◌=ₛ◌,
  if◌then◌else◌, length, delete,
}
use ota_pulse.Datastore.UpdateInfo.{rollback_supported, rollback_not_supported}
use ota_pulse.Datastore.Db.{Db, TxnFaults, standalone_state_key}
use ota_pulse.Datastore.Artifact.{commit_artifact_data}
use ota_pulse.Agent.Env.{Env, Op, RebootAction, installer, scripts, standalone_transaction}
use ota_pulse.Agent.Machine.{M, ◌>>=◌, ◌>>◌, pure, ask, try, broken_artifact_suffix}
use ota_pulse.Agent.Handle.Payloads.{run_until_error, run_all, query_rollback_support}

-- `standaloneData`; the payload handlers are given by their types.
pub record StandaloneData : Type 0 where
  pub artifact_name : String
  pub artifact_group : String
  pub artifact_type_info_provides : Option (List (String × String))
  pub artifact_clears_provides : Option (List String)
  pub installers : List String

-- The errors that are told apart by the command line, and any other.
pub data Fault : Type 0 where
  manual_reboot_required nothing_to_commit failed : Fault

abbrev pub fault_if : Bool → Option Fault
fault_if b = if b then some failed else none

abbrev pub or_empty : Option (List (String × String)) → List (String × String)
or_empty none = []
or_empty (some p) = p

abbrev pub supported_of : String × Bool → Option Bool
supported_of (support, false) = none
supported_of (support, true) =
    if support =ₛ rollback_supported
    then some true
    else if support =ₛ rollback_not_supported
    then some false
    else none

abbrev pub with_broken_name : StandaloneData → StandaloneData
with_broken_name sd = record sd { artifact_name = sd.artifact_name ++ₛ broken_artifact_suffix }

-- An empty name keeps the old one.
abbrev pub with_old_name : StandaloneData → StandaloneData
with_old_name sd = record sd { artifact_name = "" }

abbrev pub kept_or : Db → Option Db → Bool × Db
kept_or db none = (true, db)
kept_or db (some db') = (false, db')

-- The old provides are read where the artifact clears some of them.
abbrev pub reads_provides : StandaloneData → Bool
reads_provides sd = elim sd.artifact_clears_provides [
  | none ↦ false
  | some clears ↦ not (sd.artifact_name =ₛ "")
]

abbrev pub transacted : TxnFaults → Bool → Db → Option Db → Bool × Db
transacted f reads db result =
    if f.open_fails || (f.read_fails && reads || f.write_fails)
    then (true, db)
    else kept_or db result

-- The name after a failure, from the first error, the support and the two flags.
abbrev pub failure_name : Bool → Bool → Bool → Bool → StandaloneData → StandaloneData
failure_name error support rollback failure sd =
    if error || failure && (not rollback || not support)
    then with_broken_name sd
    else if rollback || not failure
    then with_old_name sd
    else sd

module _ (env : Env) where
  -- `ExecuteAll` without reports: true is an error.
  abbrev pub execute_all : String → String → Bool → M Bool
  execute_all state action ignore = try env (scripts state action ignore none)

  -- Its error is only logged.
  unfoldable pub call_error_script : String → M (Unit {0})
  call_error_script state = do execute_all state "Error" true; pure tt

  -- `determineRollbackSupport`; `none` is an error.
  unfoldable pub determine_rollback_support : List String → M (Option Bool)
  determine_rollback_support [] = pure (some false)
  determine_rollback_support (t ∷ types) = do
    r ← query_rollback_support env 0 (length (t ∷ types)) ""
    pure (supported_of r)

  -- `determineRebootNeeded` from payload n on, which stops at the first that asks for a reboot.
  unfoldable pub determine_reboot_needed : ℕ → ℕ → M (Option Bool)
  determine_reboot_needed n zero = pure (some false)
  determine_reboot_needed n (suc rest) = do
    answer ← ask (installer n Op.needs_reboot) env.reboot_action
    let later = determine_reboot_needed (suc n) rest
    elim answer [
      | none ↦ pure none
      | some RebootAction.no_reboot ↦ later
      | some _ ↦ pure (some true)
    ]

  -- `doStandaloneRollbackState`: whether one of the steps failed.
  unfoldable pub rollback_state : StandaloneData → M Bool
  unfolding run_all
  rollback_state sd = do
    e ← execute_all "ArtifactRollback" "Enter" false
    e' ← run_all env Op.rollback 0 (length sd.installers) e
    e'' ← execute_all "ArtifactRollback" "Leave" false
    pure (e' || e'')

  abbrev pub roll_back_if : StandaloneData → Option Bool → M (Bool × Bool)
  roll_back_if sd none = pure (false, true)
  roll_back_if sd (some false) = pure (false, false)
  roll_back_if sd (some true) = do e ← rollback_state sd; pure (true, e)

  -- `doStandaloneFailureStatesRollback`: the support, and whether there was an error.
  unfoldable pub failure_states_rollback : StandaloneData → M (Bool × Bool)
  unfolding determine_rollback_support
  failure_states_rollback sd = do
    support ← determine_rollback_support sd.installers
    roll_back_if sd support

  -- `doStandaloneFailureStatesFailure`
  unfoldable pub failure_states_failure : StandaloneData → M Bool
  unfolding run_all
  failure_states_failure sd = do
    e ← execute_all "ArtifactFailure" "Enter" true
    e' ← run_all env Op.failure 0 (length sd.installers) e
    e'' ← execute_all "ArtifactFailure" "Leave" true
    pure (e' || e'')

  abbrev pub commit_name : StandaloneData → Db → Option Db
  commit_name sd db =
      if sd.artifact_name =ₛ ""
      then some db
      else commit_artifact_data env.wildcards sd.artifact_name sd.artifact_group
          (or_empty sd.artifact_type_info_provides) sd.artifact_clears_provides db

  -- The transaction of the clean-up: true is an error, which changes nothing.
  unfoldable pub cleanup_transaction : StandaloneData → M Bool
  unfolding commit_artifact_data
  cleanup_transaction sd s =
      let calls = standalone_transaction ∷ s.trace in
      let result = commit_name sd (delete standalone_state_key s.db) in
      let (e, db') = transacted (env.txn_faults calls) (reads_provides sd) s.db result in
      (e, record s { trace = calls; db = db' })

  -- `doStandaloneCleanup`
  unfoldable pub cleanup : StandaloneData → M Bool
  unfolding run_all cleanup_transaction
  cleanup sd = do
    e ← run_all env Op.cleanup 0 (length sd.installers) false
    e' ← cleanup_transaction sd
    pure (e || e')

  abbrev pub rollback_part : Bool → StandaloneData → M (Bool × Bool)
  rollback_part rollback sd = if rollback then failure_states_rollback sd else pure (false, false)

  abbrev pub failure_part : Bool → StandaloneData → M Bool
  failure_part failure sd = if failure then failure_states_failure sd else pure false

  abbrev pub cleanup_part : Bool → StandaloneData → M Bool
  cleanup_part clean sd = if clean then cleanup sd else pure false

  -- `doStandaloneFailureStates`: whether there was an error, and the data with its new name.
  unfoldable pub failure_states : StandaloneData → Bool → Bool → Bool → M (Bool × StandaloneData)
  unfolding failure_states_rollback failure_states_failure cleanup
  failure_states sd rollback failure clean = do
    (support, e) ← rollback_part rollback sd
    e' ← failure_part failure sd
    let sd' = failure_name (e || e') support rollback failure sd
    e'' ← cleanup_part clean sd'
    pure (e || e' || e'', sd')

  -- A failure of a state: its error scripts and the failure states; the error is returned.
  unfoldable pub fail_in : String → StandaloneData → Bool → M (Option Fault)
  unfolding call_error_script failure_states
  fail_in state sd late = do
    call_error_script state
    failure_states sd late late true
    pure (some failed)

  abbrev pub leave_commit : StandaloneData → Bool → M (Option Fault)
  leave_commit sd true = do
    call_error_script "ArtifactCommit"
    cleanup (with_broken_name sd)
    pure (some failed)
  leave_commit sd false = do e ← cleanup sd; pure (fault_if e)

  -- `doStandaloneCommitStates`
  unfoldable pub commit_states : StandaloneData → M (Option Fault)
  unfolding fail_in run_until_error cleanup
  commit_states sd = do
    e ← execute_all "ArtifactCommit" "Enter" false
    if e then fail_in "ArtifactCommit" sd true else do
      e' ← run_until_error env Op.commit_update 0 (length sd.installers)
      if e'
          then fail_in "ArtifactCommit" sd true
          else do e'' ← execute_all "ArtifactCommit" "Leave" false; leave_commit sd e''
