-- ===== src/Circuit.antt =====
-- internal/circuit: which servers are healthy, and the circuit breakers of the services.
pub mod Health
pub mod Passive
pub mod Breaker
mod Tests
