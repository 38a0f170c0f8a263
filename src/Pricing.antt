-- ===== src/Pricing.antt =====
-- internal/pricing/pricing.go: from a usage event to dollars.
pub mod Double
pub mod Normalize
pub mod Engine
pub mod Cost
pub mod Fetch
pub mod Bundled
