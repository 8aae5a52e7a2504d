-- ===== src/Rules.antt =====
-- The pure rules of packages/core/src about money and trust: the fee, the payout hold, the
-- velocity limits and the conditions of a listing. Amounts are whole cents and times are whole
-- milliseconds, as in the source; the tests that `Number.isInteger` makes hold of every number
-- here.
pub mod Fees
pub mod Payouts
pub mod Fraud
pub mod Listing
mod Tests
