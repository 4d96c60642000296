-- ===== src/Pricing.antt =====
-- The prices of model tokens (packages/core/src/pricing.ts).
pub mod Rates
pub mod Fallback
mod Tests
