-- ===== src/Watch.antt =====
-- The jobs that watch the platform (services/job-worker/src/handlers).
pub mod Alerts
pub mod OneOpen
pub mod OneAlert
