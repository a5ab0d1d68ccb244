-- ===== src/Agent.antt =====
pub mod Backoff
pub mod Transition
pub mod State
pub mod Env
pub mod Machine
pub mod Report
pub mod HandleError
pub mod Depends
pub mod Handle
pub mod Step
pub mod Standalone
