-- ===== src/Saga/Run.antt =====
-- What a run of the settlement saga is given, and the statements that several of its steps share
-- (services/job-worker/src/handlers/payment-saga.mjs). The tenant of a job is the one that
-- `executePayment` settles on; what the other services answer is an argument.
use Prim.Native.String.{String}
use stablecoin_treasury.Prelude.{
  ℕ, Bool, ◌&&◌, Option, none, some, List, ◌∷◌, map, ◌==◌, if◌then◌else◌, find, any,
}
use stablecoin_treasury.Prelude.Outcome.{Outcome, ok, err}
use stablecoin_treasury.Payment.Types.{Payment, Db, Error, not_found, missing_row, Decision}
use stablecoin_treasury.Payment.Table.{find_row}
use stablecoin_treasury.Payment.Settlement.{fail_payment}
use stablecoin_treasury.Custody.Adapter.{Transfer}
use stablecoin_treasury.Saga.World.{
  World, not_sent, submitted, refused, Submission, SagaStep, AttemptOutcome,
}
use stablecoin_treasury.Saga.Monad.{Saga, ◌>>◌, statement}

pub record Job : Type 0 where
  pub id : ℕ
  pub tenant_id : ℕ
  pub payment_id : ℕ

pub record ContextWallet : Type 0 where
  pub id : ℕ
  pub address : ℕ
  pub asset : String

-- What `getPaymentContext` brings that the saga uses.
pub record Context : Type 0 where
  pub provider_id : ℕ
  pub counterparty_wallet : ℕ
  pub wallets : List ContextWallet

-- The answers of the other services and of the clock, the random references, and the settings.
pub record Answers : Type 0 where
  pub context : Outcome Error Context
  pub evaluation : Outcome Error Decision
  pub journals : Outcome Error (Unit {0})
  pub matched : Outcome Error (Unit {0})
  pub provider_ref : ℕ
  pub chain_ref : ℕ
  pub now : ℕ
  pub crash_double : Bool
  pub max_failures : ℕ
  pub reset_ms : ℕ

-- A statement on the payment tables.
abbrev pub on_db {ℓ} : {A : Type ℓ} → (Db → Outcome Error A × Db) → World → Outcome Error A × World
on_db f w = let (r, db) = f w.db in (r, record w { db = db })

abbrev pub answered {ℓ} : {A : Type ℓ} → Outcome Error A → World → Outcome Error A × World
answered r w = (r, w)

-- `recordAttempt`
abbrev pub insert_attempt :
    Job → SagaStep → AttemptOutcome → World → Outcome Error (Unit {0}) × World
insert_attempt job step outcome w = (
  ok tt,
  record w {
    attempts =
        record {
          tenant_id = job.tenant_id;
          payment_id = job.payment_id;
          job_id = job.id;
          step = step;
          outcome = outcome;
        }
        ∷ w.attempts;
  },
)

unfoldable pub record_attempt : Job → SagaStep → AttemptOutcome → Saga (Unit {0})
record_attempt job step outcome = statement (insert_attempt job step outcome)

-- The saga's first read.
abbrev pub found_or_throw : Option Payment → Outcome Error Payment
found_or_throw none = err not_found
found_or_throw (some p) = ok p

abbrev pub read_payment : Job → World → Outcome Error Payment × World
read_payment job w = (found_or_throw (find_row job.payment_id job.tenant_id w.db.payments), w)

-- `failPayment`
abbrev pub fail_statement : Job → Saga (Unit {0})
fail_statement job = statement (on_db (fail_payment job.payment_id job.tenant_id))

-- `ensureProviderSubmission`; the key `payment:<id>` is the payment's id.
abbrev pub is_submission : Job → Submission → Bool
is_submission job s = s.tenant_id == job.tenant_id && s.payment_id == job.payment_id

abbrev pub insert_submission : Job → ℕ → World → Outcome Error (Unit {0}) × World
insert_submission job provider_id w = (
  ok tt,
  record w {
    submissions =
        if any (is_submission job) w.submissions
        then w.submissions
        else record {
          tenant_id = job.tenant_id;
          payment_id = job.payment_id;
          provider_id = provider_id;
          idempotency_key = job.payment_id;
          status = not_sent;
          provider_ref = none;
          chain_ref = none;
        }
          ∷ w.submissions;
  },
)

abbrev pub submission_or_throw : Option Submission → Outcome Error Submission
submission_or_throw none = err missing_row
submission_or_throw (some s) = ok s

abbrev pub select_submission : Job → World → Outcome Error Submission × World
select_submission job w = (submission_or_throw (find (is_submission job) w.submissions), w)

unfoldable pub ensure_provider_submission : Job → ℕ → Saga Submission
ensure_provider_submission job provider_id =
    statement (insert_submission job provider_id) >> statement (select_submission job)

-- `UPDATE payment.provider_submissions SET …` of the payment's row.
abbrev pub update_submission :
    Job → (Submission → Submission) → World → Outcome Error (Unit {0}) × World
update_submission job patch w = (
  ok tt,
  record w { submissions = map (λ s. if is_submission job s then patch s else s) w.submissions },
)

abbrev pub as_submitted : Transfer → Submission → Submission
as_submitted t s = record s {
  status = submitted;
  provider_ref = some t.provider_ref;
  chain_ref = some t.chain_ref;
}

abbrev pub as_refused : Submission → Submission
as_refused s = record s { status = refused }
