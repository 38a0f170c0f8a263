-- ===== src/UsageStats.antt =====
-- internal/usagestats: figures drawn from usage events.
pub mod Blocks
pub mod Groups
pub mod Summary
