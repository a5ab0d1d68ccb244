-- ===== src/Datastore.antt =====
-- soc-ota-agent/datastore: what the agent keeps across restarts, and how it is written.
-- `StateName` is the enumeration of states, `UpdateInfo` the record of an update, `StateData` the
-- stored state, `Artifact` the names and provides of the installed artifact.
pub mod StateName
pub mod UpdateInfo
pub mod Db
pub mod StateData
pub mod Artifact
