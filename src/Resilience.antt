-- ===== src/Resilience.antt =====
-- The resilience primitives of app/core/resilience.py: the circuit breaker that guards calls to an
-- exchange, and the retry helper.
pub mod Breaker
pub mod Retry
