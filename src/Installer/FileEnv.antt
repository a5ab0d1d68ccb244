-- ===== src/Installer/FileEnv.antt =====
-- installer/file_bootenv.go: the boot environment that is kept in files.
pub mod Files
pub mod Slots
pub mod BootPartition
pub mod Vars
pub mod Reconcile
pub mod Writes
pub mod Kept
pub mod Synced
pub mod Reliable
pub mod Cleared
