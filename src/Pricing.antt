-- ===== src/Pricing.antt =====
-- The price index (packages/core/src/pricing.ts).
pub mod Summary
pub mod Sorted
pub mod Spread
mod Tests
