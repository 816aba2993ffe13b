-- ===== src/Intent.antt =====
-- The payment intents: packages/payment-intent and the state machine of packages/shared.
pub mod State
pub mod Data
pub mod Repository
pub mod Webhook
pub mod Service
pub mod Deposits
pub mod Lifecycle
