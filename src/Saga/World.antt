-- ===== src/Saga/World.antt =====
-- What the settlement saga reads and writes: payment tables, submissions, attempts, the adapters
-- and breakers of its process, the wallet ledger, and the posts that other services accepted.
use stablecoin_treasury.Prelude.{ℕ, Option, List, ◌∷◌, none, some, ◌==◌, find}
use stablecoin_treasury.Payment.Types.{Db}
use stablecoin_treasury.Ledger.Types.{Ledger}
use stablecoin_treasury.Custody.Adapter.{Adapters, ProviderRow}
use stablecoin_treasury.Custody.Breaker.{Breaker, new_breaker}

pub data SubmissionStatus : Type 0 where
  not_sent submitted refused : SubmissionStatus

-- A row of payment.provider_submissions. `not_sent` is 'pending', `refused` is 'failed'.
pub record Submission : Type 0 where
  pub tenant_id : ℕ
  pub payment_id : ℕ
  pub provider_id : ℕ
  pub idempotency_key : ℕ
  pub status : SubmissionStatus
  pub provider_ref : Option ℕ
  pub chain_ref : Option ℕ

pub data SagaStep : Type 0 where
  policy_check provider_submission ledger_debit : SagaStep
  journal_creation reconciliation settlement : SagaStep

pub data AttemptOutcome : Type 0 where
  started success failure : AttemptOutcome

-- A row of payment.payment_execution_attempts.
pub record Attempt : Type 0 where
  pub tenant_id : ℕ
  pub payment_id : ℕ
  pub job_id : ℕ
  pub step : SagaStep
  pub outcome : AttemptOutcome

-- A post that another service accepted, for a payment of a tenant.
pub data Post : Type 0 where
  journals_posted match_posted : ℕ → ℕ → Post

-- The breaker of a provider, in the map `breakers`.
pub record BreakerEntry : Type 0 where
  pub provider_id : ℕ
  pub breaker : Breaker

pub record World : Type 0 where
  pub db : Db
  pub submissions : List Submission
  pub attempts : List Attempt
  pub providers : List ProviderRow
  pub adapters : Adapters
  pub breakers : List BreakerEntry
  pub ledger : Ledger
  pub posts : List Post

abbrev breaker_or_new : Option BreakerEntry → Breaker
breaker_or_new none = new_breaker
breaker_or_new (some e) = e.breaker

-- `breakers.get(providerId)`, or the new one.
unfoldable pub get_breaker : ℕ → List BreakerEntry → Breaker
get_breaker id entries = breaker_or_new (find (λ e. e.provider_id == id) entries)

abbrev pub set_breaker : ℕ → Breaker → List BreakerEntry → List BreakerEntry
set_breaker id b entries = record { provider_id = id; breaker = b } ∷ entries
