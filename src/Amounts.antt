-- ===== src/Amounts.antt =====
-- Amounts of money and moments of a stream, as people write them: packages/core/src/collections.ts and
-- packages/core/src/vod.ts.
pub mod Money
pub mod MoneyRoundTrip
pub mod Durations
pub mod DurationRoundTrip
pub mod TwitchRoundTrip
pub mod Columns
pub mod Tests
