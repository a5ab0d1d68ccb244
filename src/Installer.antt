-- ===== src/Installer.antt =====
-- installer/: the boot environment and the two root file systems.
pub mod Text
pub mod World
pub mod Triple
pub mod BootEnv
pub mod FileEnv
pub mod UBootEnv
pub mod Partitions
pub mod BlockDevice
pub mod DualRootfs
