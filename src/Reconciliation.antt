-- ===== src/Reconciliation.antt =====
-- The statement matcher: services/reconciliation-service/src/statements.mjs.
pub mod Matching
pub mod MatchedOnce
pub mod Ingest
