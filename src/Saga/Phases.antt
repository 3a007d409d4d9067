-- ===== src/Saga/Phases.antt =====
-- What a run of the saga keeps, by its phases: what holds before the debit, after it, after the
-- journals, after the match, and at every end. The attempts, submissions and breakers are free.
use stablecoin_treasury.Platform.Events.{OutboxRow}
use stablecoin_treasury.Prelude.{ℕ, Option, List, ◌∷◌}
use stablecoin_treasury.Prelude.Outcome.{Outcome}
use stablecoin_treasury.Payment.Types.{Payment, Db, Error}
use stablecoin_treasury.Payment.Settlement.{fail_payment, settle_payment, persist_refs}
use stablecoin_treasury.Ledger.Types.{Ledger}
use stablecoin_treasury.Custody.Adapter.{Adapters, AdapterKey, submit_transfer}
use stablecoin_treasury.Saga.World.{
  World, SagaStep, AttemptOutcome, started, success, failure, Post, journals_posted, match_posted,
}
use stablecoin_treasury.Saga.Monad.{Triple, Triple-then, Triple-catch, After, Triple-statement}
use stablecoin_treasury.Saga.Run.{Job, Context, Answers, record_attempt, insert_attempt}
use stablecoin_treasury.Saga.Steps.{transfer_request}
use stablecoin_treasury.Saga.Settle.{debit_statement, attempted}

abbrev pub Phase : Type 1
Phase = Db → Adapters → Ledger → List Post → Type 0

abbrev pub At : Phase → World → Type 0
At P w = P w.db w.adapters w.ledger w.posts

-- The obligations of the statements that phases are about.
pub record Obligations (answers : Answers) (job : Job) (p : Payment) (P0 P1 P2 P3 R : Phase)
    : Type 0 where
  pub weak0 : (d : Db) (a : Adapters) (l : Ledger) (s : List Post) → P0 d a l s → R d a l s
  pub weak1 : (d : Db) (a : Adapters) (l : Ledger) (s : List Post) → P1 d a l s → R d a l s
  pub weak2 : (d : Db) (a : Adapters) (l : Ledger) (s : List Post) → P2 d a l s → R d a l s
  pub weak3 : (d : Db) (a : Adapters) (l : Ledger) (s : List Post) → P3 d a l s → R d a l s
  pub fails :
      (d : Db) (a : Adapters) (l : Ledger) (s : List Post)
      → P0 d a l s
      → R (fail_payment job.payment_id job.tenant_id d).1 a l s
  pub submits :
      (d : Db) (a : Adapters) (l : Ledger) (s : List Post) (adapter : AdapterKey)
      → P0 d a l s
      → P0 d (submit_transfer adapter (transfer_request answers job p) a).1 l s
  pub persists :
      (d : Db) (a : Adapters) (l : Ledger) (s : List Post) (ref chain : Option ℕ)
      → P0 d a l s
      → P0 (persist_refs job.payment_id job.tenant_id ref chain d).1 a l s
  pub debits_ok :
      (context : Context) (w : World)
      → At P0 w
      → After (λ _. At P1) (At R) (debit_statement job context p w)
  pub journals_ok :
      (d : Db) (a : Adapters) (l : Ledger) (s : List Post)
      → P1 d a l s
      → P2 d a l (journals_posted job.tenant_id p.id ∷ s)
  pub match_ok :
      (d : Db) (a : Adapters) (l : Ledger) (s : List Post)
      → P2 d a l s
      → P3 d a l (match_posted job.tenant_id p.id ∷ s)
  pub settles :
      (d : Db) (a : Adapters) (l : Ledger) (s : List Post) (at : ℕ)
      → P3 d a l s
      → R (settle_payment job.payment_id job.tenant_id at d).1 a l s
  pub logs :
      (d : Db) (a : Adapters) (l : Ledger) (s : List Post) (rows : List OutboxRow)
      → R d a l s
      → R (record d { outbox = rows }) a l s

module _ (job : Job) where
  pub record_attempt-Triple :
      (P R : Phase) (step : SagaStep) (outcome : AttemptOutcome)
      → ((w : World) → At P w → At R w)
      → Triple (At P) (record_attempt job step outcome) (λ _. At P) (At R)
  unfolding record_attempt
  record_attempt-Triple P R step outcome weak =
      Triple-statement (At P) (λ _. At P) (At R) (insert_attempt job step outcome) weak (λ _. weak)
        (λ w h. h)

  -- `attempted` around a statement.
  pub attempted-Triple :
      (P Q R : Phase) (step : SagaStep) (run : World → Outcome Error (Unit {0}) × World)
      → ((w : World) → At P w → At R w)
      → ((w : World) → At Q w → At R w)
      → ((w : World) → At P w → After (λ _. At Q) (At R) (run w))
      → Triple (At P) (attempted job step run) (λ _. At Q) (At R)
  unfolding attempted
  attempted-Triple P Q R step run p_r q_r h =
      Triple-then (At R) (At P) _ (λ _. At P) _ (λ _. At Q)
        (record_attempt-Triple P R step started p_r)
        (λ _.
          Triple-catch (At R) (At P) _ (λ _. At Q) (At R) _ (λ w r. r)
            (Triple-then (At R) (At P) _ (λ _. At Q) _ (λ _. At Q)
              (Triple-statement (At P) (λ _. At Q) (At R) run p_r (λ _. q_r) h)
              (λ _. record_attempt-Triple Q R step success q_r))
            (λ e.
              Triple-then (At R) (At R) _ (λ _. At R) _ (λ _. At Q)
                (record_attempt-Triple R R step failure (λ w r. r)) (λ _ n w r. r)))
