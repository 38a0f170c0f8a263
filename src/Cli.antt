-- ===== src/Cli.antt =====
-- internal/stintcli: the offline queue of the command-line client and its synchronisation.
pub mod Heartbeat
pub mod Queue
pub mod Requeue
pub mod Sync
pub mod Backoff
