-- ===== src/Relay.antt =====
-- Delivery of outbox events: the relay worker (services/relay-worker) and the inbox guard of the
-- services that it delivers to (packages/shared/outbox.mjs).
pub mod Inbox
pub mod Worker
pub mod Handled
pub mod Once
pub mod Progress
pub mod Settles
