-- ===== src/Payment.antt =====
-- The payment lifecycle: services/payment-service and the parts of services/job-worker that
-- write the same tables.
pub mod Types
pub mod Table
pub mod Rows
pub mod Updated
pub mod SelfApproval
pub mod Replay
pub mod Approve
pub mod Execute
pub mod Keys
pub mod Create
pub mod Settlement
pub mod System
pub mod Branches
pub mod FourEyes
pub mod Lifecycle
