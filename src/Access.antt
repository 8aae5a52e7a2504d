-- ===== src/Access.antt =====
-- Who may do what (packages/auth/src).
pub mod Authorize
pub mod StepUp
pub mod Limiter
pub mod Eviction
pub mod Tests
