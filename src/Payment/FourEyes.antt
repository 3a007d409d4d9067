-- ===== src/Payment/FourEyes.antt =====
-- The four-eyes invariant: the `approvals` column counts the distinct approvers, and a payment
-- that was released for execution has as many as its policy asked for.
pub mod Counts
pub mod Updates
pub mod Handlers
pub mod Creation
pub mod Theorem
