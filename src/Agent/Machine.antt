-- ===== src/Agent/Machine.antt =====
-- The state of the running agent (app/mender.go `Mender`, app/state.go `StateContext`) and the
-- actions on it: a call of the environment, the store, the log of the deployment, a wait.
use Prim.Native.String.{◌++◌ as ◌++ₛ◌}
use ota_pulse.Prelude.{
  ℕ, String, Bool, true, false, Option, List, [], ◌∷◌, if◌then◌else◌, insert, delete,
}
use ota_pulse.Errors.{Err}
use ota_pulse.Datastore.StateName.{MenderState}
use ota_pulse.Datastore.UpdateInfo.{UpdateInfo}
use ota_pulse.Datastore.Db.{Db, StateData, text_entry, artifact_name_key, state_data_key}
use ota_pulse.Datastore.StateData.{Loaded, store_state_data, load_state_data}
use ota_pulse.ControlMap.Pool.{Pool, PoolEvent, pool_event}
use ota_pulse.Agent.State.{State}
use ota_pulse.Agent.Env.{
  Env, Call, Op, WaitResult, enable_logger, load_state, remove_state, store_state,
  write_artifact_name, wait, pool_access, installer,
}

-- A time is the number of nanoseconds since Go's zero time, and 0 is that time.
pub record Machine : Type 0 where
  pub trace : List Call
  pub db : Db
  pub pool : Pool
  pub current : State
  pub installers : List String
  pub last_update_check_attempt : ℕ
  pub last_inventory_update_attempt : ℕ
  pub fetch_install_attempts : ℕ
  pub control_map_fetch_attempts : ℕ
  pub inventory_update_attempts : ℕ
  pub next_attempt_at : ℕ
  pub pause_reported : List String

abbrev pub M : Type 0 → Type 0
M A = Machine → A × Machine

infixl 5 ◌>>=◌ ◌>>◌
unfoldable pub ◌>>=◌ : {A B : Type 0} → M A → (A → M B) → M B
◌>>=◌ m f s = let (a, s') = m s in f a s'

unfoldable pub ◌>>◌ : {A B : Type 0} → M A → M B → M B
m >> k = m >>= λ _. k

unfoldable pub pure : {A : Type 0} → A → M A
pure a s = (a, s)

unfoldable pub gets : {A : Type 0} → (Machine → A) → M A
gets f s = (f s, s)

unfoldable pub modify : (Machine → Machine) → M (Unit {0})
modify f s = (tt, f s)

-- Makes a call, and reads the answer off the calls so far.
unfoldable pub ask : {A : Type 0} → Call → (List Call → A) → M A
ask c answer s = let calls = c ∷ s.trace in (answer calls, record s { trace = calls })

-- A handler leaves its own state, changed in place, and the next one, with the flag that it was
-- cancelled.
pub record Outcome : Type 0 where
  pub self : State
  pub next : State
  pub cancelled : Bool

abbrev pub go : State → State → M Outcome
go self next = pure (record { self = self; next = next; cancelled = false })

-- conf/paths.go
abbrev pub broken_artifact_suffix : String
broken_artifact_suffix = "_INCONSISTENT"

abbrev broken_name : String → String
broken_name name = name ++ₛ broken_artifact_suffix

module _ (env : Env) where
  abbrev pub try : Call → M Bool
  try c = ask c env.call_fails

  -- The result of the logger is an error where this is true.
  abbrev pub enable_log : String → M Bool
  enable_log id = try (enable_logger id)

  abbrev pub installer_op : ℕ → Op → M Bool
  installer_op n op = try (installer n op)

  unfoldable pub store_state_of : MenderState → UpdateInfo → Bool → M (Option Err)
  unfolding store_state_data
  store_state_of name u inc s =
      let calls = store_state name u inc ∷ s.trace in
      let sd : StateData = record { version = 0; name = name; update_info = u } in
      let (db', err) = store_state_data (env.txn_faults calls) s.db sd inc in
      (err, record s { trace = calls; db = db' })

  unfoldable pub load_state_of : M Loaded
  unfolding load_state_data
  load_state_of s =
      let calls = load_state ∷ s.trace in
      let (db', l) = load_state_data (env.txn_faults calls) s.db in
      (l, record s { trace = calls; db = db' })

  -- `RemoveStateData`: true is an error.
  unfoldable pub remove_state_data : M Bool
  remove_state_data s =
      let calls = remove_state ∷ s.trace in
      if env.call_fails calls
      then (true, record s { trace = calls })
      else (false, record s { trace = calls; db = delete state_data_key s.db })

  -- `setBrokenArtifactFlag`; a failure is only logged.
  unfoldable pub set_broken_artifact_flag : String → M (Unit {0})
  set_broken_artifact_flag name s =
      let calls = write_artifact_name (broken_name name) ∷ s.trace in
      let db' = insert artifact_name_key (text_entry (broken_name name)) s.db in
      (tt, record s { trace = calls; db = if env.call_fails calls then s.db else db' })

  -- `Wait`: the timer or a wake-up leads on, a cancel stays.
  unfoldable pub waited : State → State → State → WaitResult → Outcome
  waited self next same WaitResult.cancelled = record { self = self; next = same; cancelled = true }
  waited self next same _ = record { self = self; next = next; cancelled = false }

  unfoldable pub wait_for : State → State → State → ℕ → M Outcome
  unfolding waited
  wait_for self next same duration = do
    r ← ask (wait duration) env.wait_result
    pure (waited self next same r)

  apply_events : List PoolEvent → Pool → Pool
  apply_events [] c = c
  apply_events (e ∷ es) c = apply_events es (pool_event e c)

  -- Before the agent looks at its pool, timers and D-Bus calls may have changed it.
  unfoldable pub sync_pool : M Pool
  unfolding apply_events
  sync_pool s =
      let calls = pool_access ∷ s.trace in
      let c = apply_events (env.pool_events calls) s.pool in
      (c, record s { trace = calls; pool = c })
