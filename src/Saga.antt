-- ===== src/Saga.antt =====
-- The settlement saga of the job worker: services/job-worker/src/handlers/payment-saga.mjs.
pub mod World
pub mod Monad
pub mod Complete
pub mod Run
pub mod Steps
pub mod Settle
pub mod Phases
pub mod PhaseRun
pub mod PhaseWhole
pub mod Rows
pub mod Safety
pub mod Failure
pub mod Sent
pub mod OneTransfer
pub mod Liveness
pub mod Submits
pub mod Settles
