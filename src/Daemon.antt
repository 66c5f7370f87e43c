-- ===== src/Daemon.antt =====
-- The parts of the daemon, src/daemon/: the writer's queue and the state that its jobs publish.
pub mod WriteQueue
pub mod Snapshots
pub mod Handlers
pub mod Watcher
