-- ===== src/Metering.antt =====
-- Metering of sandbox time (packages/runtime/src/sandbox-usage.ts) at the list rates of
-- packages/core/src/pricing.ts.
pub mod Rates
pub mod Usage
pub mod Ledger
pub mod Intervals
pub mod Bounds
pub mod Summary
mod Tests
