-- ===== src/Webhook.antt =====
-- The webhooks that Stripe calls (apps/api/src/routes/stripe-webhook.ts and
-- packages/db/src/queries/webhooks.ts).
pub mod State
pub mod Handlers
pub mod Accounts
pub mod Receive
pub mod Once
pub mod Payment
pub mod Effects
mod Tests
