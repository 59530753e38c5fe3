-- ===== src/CircuitBreaker.antt =====
-- internal/circuitbreaker
pub mod Breaker
pub mod Registry
