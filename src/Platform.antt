-- ===== src/Platform.antt =====
-- What all services share through the `platform` schema: the outbox and the job queue.
pub mod Events
pub mod Jobs
pub mod Queue
pub mod Attempts
pub mod Tries
pub mod Starts
