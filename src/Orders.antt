-- ===== src/Orders.antt =====
-- Orders in the database (packages/db/src/queries/orders.ts): the rows and their constraints, the
-- transactions that the queries run in, and the queries.
pub mod Schema
pub mod Db
pub mod Queries
pub mod Payments
pub mod Effects
pub mod Step
pub mod Refinement
pub mod Settlement
pub mod Paying
pub mod Calls
pub mod Nightly
pub mod Ready
pub mod Earliest
pub mod History
pub mod Constraints
pub mod Sessions
pub mod Live
pub mod Finishing
pub mod Completing
pub mod Shipping
pub mod Receipt
pub mod Samples
mod Tests
