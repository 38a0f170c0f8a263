-- ===== src/Services.antt =====
-- internal/services: what the server computes from heartbeats.
pub mod Heartbeat
pub mod Rules
pub mod Durations
pub mod Totals
pub mod External
pub mod Hourly
pub mod Goals
pub mod Stats
pub mod Reports
pub mod Prepare
