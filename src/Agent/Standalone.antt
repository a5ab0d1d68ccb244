-- ===== src/Agent/Standalone.antt =====
-- app/standalone.go: installation, commit and rollback from the command line.
pub mod States
pub mod Restore
pub mod Install
pub mod Supported
pub mod Committed
pub mod Downloaded
pub mod Installed
