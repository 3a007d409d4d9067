-- ===== src/Saga/Settle.antt =====
-- The debit, the posts to other services and the settlement, and the saga.
use text.Mathlib.Text.{◌==◌ as str_eq}
use stablecoin_treasury.Prelude.{
  ℕ, Bool, true, false, not, ◌&&◌, Option, none, some, ◌∷◌, ◌==◌, if◌then◌else◌, find,
}
use stablecoin_treasury.Prelude.Int.{pos}
use stablecoin_treasury.Prelude.Outcome.{Outcome, ok, err}
use stablecoin_treasury.Platform.Events.{payment_settled}
use stablecoin_treasury.Money.Convert.{finite}
use stablecoin_treasury.Payment.Types.{
  Payment, executing, settled, status_eq, Error, invalid_state, debit_refused, system_id,
}
use stablecoin_treasury.Payment.Approve.{log_audit}
use stablecoin_treasury.Payment.Settlement.{settle_payment}
use stablecoin_treasury.Ledger.Debit.{debit_route, DebitRequest, DebitReply}
use stablecoin_treasury.Ledger.Types.{DebitError}
use stablecoin_treasury.Saga.World.{
  World, SagaStep, provider_submission, ledger_debit, journal_creation, reconciliation, settlement,
  started, success, failure, Post, journals_posted, match_posted,
}
use stablecoin_treasury.Saga.Monad.{Saga, return, throw, ◌>>=◌, ◌>>◌, catch, statement}
use stablecoin_treasury.Saga.Run.{
  Job, ContextWallet, Context, Answers, on_db, answered, read_payment, record_attempt,
}
use stablecoin_treasury.Saga.Steps.{provide, check_policy, Provided, provided, gave_up}

-- `context.wallets.find(…)`
abbrev is_destination : Context → Payment → ContextWallet → Bool
is_destination context p c =
    not (c.id == p.source_wallet_id)
    && (c.address == context.counterparty_wallet && str_eq c.asset p.asset)

abbrev wallet_id : Option ContextWallet → Option ℕ
wallet_id none = none
wallet_id (some c) = some c.id

-- The post to `/wallets/:id/debit`; the key `debit:<id>` is the payment's id.
abbrev pub debit_request : Context → Payment → DebitRequest
debit_request context p = record {
  idempotency_key = some p.id;
  principal = finite (pos p.amount);
  fee = finite (pos p.fee);
  destination_wallet_id = wallet_id (find (is_destination context p) context.wallets);
  payment_id = some p.id;
}

abbrev pub debit_answer : Outcome DebitError DebitReply → Outcome Error (Unit {0})
debit_answer (ok _) = ok tt
debit_answer (err _) = err debit_refused

abbrev pub debit_statement : Job → Context → Payment → World → Outcome Error (Unit {0}) × World
debit_statement job context p w =
    let (r, l) = debit_route p.source_wallet_id job.tenant_id (debit_request context p) w.ledger in
    (debit_answer r, record w { ledger = l })

-- Step 3, and `step` of step 4: an error is recorded and thrown again.
unfoldable pub attempted :
    Job → SagaStep → (World → Outcome Error (Unit {0}) × World) → Saga (Unit {0})
attempted job step run =
    record_attempt job step started
    >> catch (statement run >> record_attempt job step success)
        (λ e. record_attempt job step failure >> throw e)

-- A post that another service accepts or refuses.
abbrev pub post_on : Post → World → Outcome Error (Unit {0}) → Outcome Error (Unit {0}) × World
post_on post w (ok _) = (ok tt, record w { posts = post ∷ w.posts })
post_on post w (err e) = (err e, w)

abbrev pub post_statement :
    Outcome Error (Unit {0}) → Post → World → Outcome Error (Unit {0}) × World
post_statement answer post w = post_on post w answer

-- Step 5.
abbrev pub settled_at_of : Option ℕ → ℕ → ℕ
settled_at_of none now = now
settled_at_of (some at) now = at

abbrev pub audit_settled : Job → Payment → World → Outcome Error (Unit {0}) × World
audit_settled job p w = (
  ok tt,
  record w { db = log_audit job.tenant_id p.id payment_settled system_id p.reference w.db },
)

unfoldable pub settle : Answers → Job → Payment → Saga (Unit {0})
settle answers job p =
    record_attempt job settlement started
    >> (statement (
          on_db
            (settle_payment job.payment_id job.tenant_id (settled_at_of p.settled_at answers.now)))
        >>= λ _. record_attempt job settlement success >> statement (audit_settled job p))

-- Steps 3 to 5.
unfoldable pub finish : Answers → Job → Context → Payment → Saga (Unit {0})
finish answers job context p =
    attempted job ledger_debit (debit_statement job context p)
    >> (attempted job journal_creation
          (post_statement answers.journals (journals_posted job.tenant_id p.id))
        >> (attempted job reconciliation
              (post_statement answers.matched (match_posted job.tenant_id p.id))
            >> settle answers job p))

abbrev pub when_provided : Answers → Job → Context → Payment → Provided → Saga (Unit {0})
when_provided answers job context p gave_up = return tt
when_provided answers job context p (provided _ _) =
    record_attempt job provider_submission success >> finish answers job context p

abbrev pub when_allowed : Answers → Job → Context → Payment → Bool → Saga (Unit {0})
when_allowed answers job context p false = return tt
when_allowed answers job context p true =
    provide answers job context p >>= when_provided answers job context p

abbrev pub run_executing : Answers → Job → Payment → Saga (Unit {0})
run_executing answers job p = statement (answered answers.context) >>= λ context.
    check_policy answers job >>= when_allowed answers job context p

abbrev pub run_payment : Answers → Job → Payment → Saga (Unit {0})
run_payment answers job p =
    if status_eq p.status settled
    then return tt
    else if not (status_eq p.status executing)
    then throw invalid_state
    else run_executing answers job p

-- `executePayment`
unfoldable pub execute_saga : Answers → Job → Saga (Unit {0})
execute_saga answers job = statement (read_payment job) >>= run_payment answers job
