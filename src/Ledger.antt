-- ===== src/Ledger.antt =====
-- The double-entry ledger of the wallet service: services/wallet-service/src/ledger.mjs and the
-- debit route of services/wallet-service/src/index.mjs.
pub mod Types
pub mod Debit
pub mod Sums
pub mod Route
pub mod Laws
