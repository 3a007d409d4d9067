-- ===== src/Lib.antt =====
-- Verification library of the treasury platform: stablecoin payments with approvals, a
-- settlement saga, a double-entry wallet ledger, reconciliation and the shared runtime.
--
-- The payment service (services/payment-service/src) keeps payments, approvals and idempotency
-- keys; the job worker (services/job-worker/src) settles payments by a saga that calls the policy
-- engine, a custody adapter, the wallet, accounting and reconciliation services. All tables are
-- in one database under a transition trigger, and events leave by an outbox.
--
-- Files and code:
-- - Prelude: shared names, Boolean tests, lists, signed integers, and results that may throw.
-- - Money: packages/shared/money.mjs (`Money.fromString` is from_string, `parseMoneyInput` is
--   parse_money_input). Policy: packages/shared/policy-math.mjs and
--   services/policy-service/src/evaluate.mjs (`evaluate`). Platform: packages/shared/outbox.mjs,
--   packages/shared/jobs.mjs (`claimJobs`, `failJob`) and services/job-worker/src/queue.mjs.
-- - Payment: services/payment-service/src/payments.mjs (`createPayment`, `approvePayment`,
--   `executePayment`, `cancelPayment`, `retryExecution`), idempotency.mjs, the expiry handler and
--   the trigger of db/migrations/0017_retry_transitions.sql. System is the step relation of all
--   their transactions; a handler's first read is of any database, so that every interleaving of
--   transactions is covered. FourEyes and Lifecycle are its invariants, and
--   SelfApproval and Replay are about one handler each.
-- - Ledger: services/wallet-service/src/ledger.mjs and the debit route of index.mjs.
-- - Custody: packages/shared/adapters/custody.mjs. Saga:
--   services/job-worker/src/handlers/payment-saga.mjs, as a run of statements each of which may
--   be lost, lose its answer, or meet a crash; runs stand one after another. Phases is the proof
--   method, and Safety, Failure and OneTransfer use it. Complete is the method for runs that
--   return, which Liveness, Submits and Settles use.
-- - Reconciliation: services/reconciliation-service/src/statements.mjs (`matchStatement`).
--   Ingest is `ingestStatement` of it. Accounting: services/accounting-service/src/journals.mjs.
--   Http: the limiters of
--   packages/shared/http.mjs and auth.mjs, and packages/shared/service-client.mjs.
-- - Access: packages/shared/auth.mjs, with passwords, cookies, sessions (`createSession`,
--   `validateSession`), guards (`requireAuth`, `requirePermission`) and users in a file each, and
--   the login, logout and state view of services/api-gateway/src/index.mjs. Lifetime and Logout
--   are about histories of sessions.
-- - Relay: services/relay-worker/src/index.mjs (`pollAndDispatch`) with the inbox guard of
--   packages/shared/outbox.mjs (`withInboxDedup`). Audit: packages/shared/audit.mjs. Watch: the
--   watchdog and chain verification of services/job-worker/src/handlers.
-- - Webhook: services/api-gateway/src/webhooks.mjs (`processWebhook`).
-- - Http/Routing, Http/Serve: the request listener of packages/shared/http.mjs, and
--   packages/shared/tenant.mjs. Gates and Entry are about what reaches a handler.
-- - Tests: concrete runs.
--
-- Conventions: identifiers are numbers, since they are only compared; money is in cents and a EUR
-- value in hundredths of a cent, where JavaScript has rounded floating-point numbers; times are
-- milliseconds; the texts of messages are left out; a table is a list with new rows at its head.
-- What other services answer, clocks and random values are arguments. The maps of the adapters and
-- the breakers are in the memory of a process, so a crash of the worker empties them.
--
-- Bounds: the digits of a number are printed with the number itself as fuel, which is at least
-- the number of its digits. The client's loop counts the attempts that are left. A run of the
-- saga that nothing disturbs has at most 26 statements.
--
-- Parameters: scrypt, SHA-256, HMAC, JSON, URI decoding and the case mappings of texts are
-- functions that the definitions take, with what a theorem needs of them as its hypotheses.
--
-- Not modelled: the web application, the gateway's routes that forward requests, static
-- files, seeds, logging and metrics, and read-only queries. A query that fails is modelled where
-- a later step depends on it; left out is the insert of the watchdog's alert, whose key has the
-- time. The state view leaves out the current user, the time and the rates, and a call of a
-- service that is not configured throws before any request. The journals and the debit add exact
-- amounts, so nothing is said of the rounding of JavaScript's numbers.
pub mod Prelude
pub mod Money
pub mod Platform
pub mod Policy
pub mod Payment
pub mod Ledger
pub mod Custody
pub mod Saga
pub mod Access
pub mod Audit
pub mod Accounting
pub mod Http
pub mod Relay
pub mod Watch
pub mod Webhook
pub mod Reconciliation
pub mod Tests
