-- ===== src/Webhook.antt =====
-- Webhooks of custody providers: services/api-gateway/src/webhooks.mjs.
pub mod Receive
pub mod Taken
pub mod Laws
pub mod Jobs
