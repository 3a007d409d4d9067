-- ===== src/Accounting.antt =====
-- The journals of the accounting service: services/accounting-service/src/journals.mjs.
pub mod Journals
