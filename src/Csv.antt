-- ===== src/Csv.antt =====
-- Reading and writing CSV (packages/security/src/csv.ts).
pub mod Write
pub mod Read
pub mod Cells
pub mod RoundTrip
pub mod Limits
pub mod Mapping
pub mod Tests
