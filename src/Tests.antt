-- ===== src/Tests.antt =====
-- Concrete runs: one example for each theorem with hypotheses.
mod Payments
mod Sagas
mod Services
mod Access
mod Logins
mod Delivery
mod Webhooks
