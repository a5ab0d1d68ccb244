-- ===== src/Tests.antt =====
-- Concrete runs: each theorem with hypotheses applied where they hold. `Setup` has the device and
-- the environments, `Past` the commit and what follows it, `Store` the stored data, `Rules` the rules, `BootSetup`
-- and `Boot` the boot environment, `Scripts` the state scripts, `Device` the block device,
-- `Download` the download of an artifact, `CommandLine` one that is installed from the command line.
pub mod Setup
pub mod Past
pub mod Store
pub mod Rules
pub mod BootSetup
pub mod Boot
pub mod Scripts
pub mod Device
pub mod Download
pub mod CommandLine
