-- ===== src/StateScripts.antt =====
-- statescript/executor.go: the scripts that run at the transitions.
pub mod Names
pub mod Launcher
pub mod Ends
pub mod Chosen
