-- ===== src/Examples.antt =====
-- Concrete inputs, tests on them, and the theorems applied to them.
pub mod Data
pub mod Intents
pub mod Lifecycle
pub mod Queue
pub mod Routes
pub mod Worker
pub mod Reconciling
pub mod Screening
pub mod Scoring
pub mod Money
pub mod Locks
pub mod Registry
pub mod Gasless
