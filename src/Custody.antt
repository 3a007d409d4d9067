-- ===== src/Custody.antt =====
-- The custody adapters and the circuit breaker around them: packages/shared/adapters/custody.mjs.
pub mod Adapter
pub mod Breaker
pub mod BreakerLaws
