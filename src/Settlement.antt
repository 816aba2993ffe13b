-- ===== src/Settlement.antt =====
-- packages/settlement/src: the payout to a merchant.
pub mod Repository
pub mod Service
pub mod Polling
pub mod Payout
pub mod Repeats
