-- ===== src/Lib.antt =====
-- A model of the update agent of OTA Pulse (soc-ota-agent, written in Go), with what it guarantees.
--
-- The agent polls a server for a deployment, downloads an artifact, hands its payloads to payload
-- handlers, reboots, commits or rolls back, and reports. It stores its state before it enters a
-- state of an update, so that it can go on after a restart. Control maps can hold an update up.
--
-- - `Datastore`: soc-ota-agent/datastore. `StateName`, `UpdateInfo` and `Db` are the data of
--   statedata.go and dbkeys.go; `StateData` has StoreStateData, StoreStateDataAndTransaction and
--   LoadStateData; `Artifact` has CommitArtifactData and LoadProvides. The store is a list of keys
--   with the values that readers decode; a write transaction that fails changes nothing.
-- - `ControlMap`: soc-ota-agent/app/updatecontrolmap (`Map`) and soc-ota-agent/app/updatemanager.go
--   (`Pool`, `Query`). What timers and D-Bus callers do to the pool are events that the agent sees
--   when it next looks at it.
-- - `Agent`: soc-ota-agent/app. `State` has the state objects of state.go, `Handle` and its children
--   their Handle methods, `HandleError` their HandleError methods, `Transition` and `Step`
--   transition.go, transitionState of mender.go and a round of the loop of daemon.go, `Backoff`
--   GetExponentialBackoffTime of client/client.go and maxSendingAttempts. `Machine` is the state of
--   the running agent, and an action is a function on it. `Env` answers every call that leaves the
--   agent (the network, payload handlers, scripts, faults of the store, time) from the calls made so
--   far, so a theorem about every `Env` holds whatever these do.
--   `Step.PastCommit` follows an update past its commit, `Step.Commit` and `Step.Interrupted` the
--   commit itself, `Step.Bounds` the reports and the restart, `Step.Storing` the download,
--   `Step.Holding` the pause.
--   `Standalone` is app/standalone.go: `States` the states of an artifact, `Restore` what is found in
--   the store and what is made of it, `Install` the installation. `Supported`, `Committed` and
--   `Installed` hold what is proved of them.
-- - `Installer`: soc-ota-agent/installer. `FileEnv` and its children are file_bootenv.go,
--   `Partitions` is partitions.go, `DualRootfs` is dual_rootfs_device.go over a boot environment,
--   which is the interface `BootEnv` of bootenv.go; `UBootEnv` is the other such environment.
--   `Text` has the numbers and fields that they read. `World` has the files under /data/ota, the
--   boot partition by its mount point, and the partitions that are known; `System` answers every
--   call of the operating system from the calls made so far, and says what a failed write leaves.
--   An interruption is a run whose later calls all fail. `DualRootfs.TwoSlots` specifies the
--   component.
--   `BlockDevice` is block_device.go with a child for each of its writers, and
--   utils/limited_writer.go; the device is a content and a position, and a read or a write may stop
--   at any byte. The loop that doubles the size of the chunks has 20 rounds, enough from one byte on.
-- - `Client`: soc-ota-agent/client. `Resumer` is update_resumer.go over connections that are a
--   parameter; its loops have fuel, for which the number of attempts that the back-off allows is
--   enough.
-- - `StateScripts`: soc-ota-agent/statescript/executor.go. `Names` has the format of the names,
--   `Launcher` the choice of the scripts and their execution. The time is that of a clock after the
--   calls so far; the retries of a script have as much fuel as their time-out has nanoseconds.
-- - `Errors` has the errors that are compared, `Prelude` the shared names, `Tests` concrete runs.
--
-- The loops run over lists, over the number of payloads or over the attempts that are left (15 for
-- a file), so nothing else needs fuel but the writing of a number, which has
-- no more than 64 digits.
-- Durations of the back-off are the bit patterns of an int64; other numbers stay far below their
-- bounds.
--
-- Not modelled: HTTP and its encodings, the payload handlers but for the two root file systems,
-- the tools of the boot loader, the processes of the state scripts, what the system does to a
-- UBI volume that is told the size of an update,
-- authorization, the backends of the store, the parsing of the command line, and the log.
-- The texts of errors, which no code reads, are dropped.
pub mod Prelude
pub mod Errors
pub mod Datastore
pub mod ControlMap
pub mod Agent
pub mod Installer
pub mod StateScripts
pub mod Client
pub mod Tests
