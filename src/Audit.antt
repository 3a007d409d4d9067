-- ===== src/Audit.antt =====
-- The audit log: its hash chain (packages/shared/audit.mjs), and the alerts on it and on the state
-- of the platform (services/job-worker/src/handlers).
pub mod Chain
pub mod Intact
pub mod Linked
pub mod Tamper
