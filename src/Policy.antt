-- ===== src/Policy.antt =====
-- The policy engine: packages/shared/policy-math.mjs and services/policy-service.
pub mod Value
pub mod Evaluate
pub mod Decision
