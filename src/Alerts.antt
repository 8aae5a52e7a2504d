-- ===== src/Alerts.antt =====
-- The alerts that are owed to watchers: packages/alerts/src/retry.ts and dispatcher.ts, on the deliveries of
-- packages/db/src/queries/ingest.ts.
pub mod Deliveries
pub mod Dispatch
pub mod Retry
pub mod Once
pub mod Claim
pub mod Settled
pub mod Messages
pub mod Tests
