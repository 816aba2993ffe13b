-- ===== src/Routing.antt =====
-- packages/routing-engine: the choice of a route, and the circuit breaker that guards a provider.
pub mod CircuitBreaker
pub mod Quotes
pub mod Scorer
pub mod Registry
pub mod Engine
