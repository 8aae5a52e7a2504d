-- ===== src/Fairness.antt =====
-- Verifiable breaks (packages/core/src/fairness.ts): the shuffle that two seeds decide, and the log of
-- pulls in which every row commits to those before it.
pub mod Arrays
pub mod Shuffle
pub mod Sampling
pub mod Permutation
pub mod Choices
pub mod Verify
pub mod Chain
pub mod Tamper
pub mod Break
pub mod Actions
pub mod Promise
pub mod Published
pub mod Log
mod Tests
