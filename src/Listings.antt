-- ===== src/Listings.antt =====
-- Marketplace listings: packages/db/src/queries/market.ts and apps/api/src/routes/market.ts.
pub mod Queries
pub mod Calls
pub mod Invariants
pub mod Routes
pub mod Sold
pub mod Tests
