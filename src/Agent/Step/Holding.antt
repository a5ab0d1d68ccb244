-- ===== src/Agent/Step/Holding.antt =====
-- app/state.go, `controlMapState`: when an update is held up.
use ota_pulse.Prelude.{Bool, true, false, List}
use ota_pulse.ControlMap.Map.{UpdateControlMap}
use ota_pulse.Agent.State.{State}
use ota_pulse.Agent.Env.{Env}
use ota_pulse.Agent.Machine.{Machine, sync_pool}

-- A state of the update itself, that a control map can hold up.
abbrev pub is_held_state : State → Bool
is_held_state (State.held h) = true
is_held_state _ = false

-- The maps of the pool, once its timers and callers are through, in the order of their priorities.
abbrev pub asked_maps : Env → Machine → List UpdateControlMap
asked_maps env m = env.sort_maps (sync_pool env m).0.maps
