-- ===== src/Tests/Services.antt =====
-- Concrete runs of the wallet, the breaker, the queue, the policy engine, the matcher and
-- the rate limiter.
use text.Mathlib.Text.{◌==◌ as str_eq}
use stablecoin_treasury.Prelude.{
  ◌≤◌, ◌≡◌, ◌==◌, refl, true, false, none, some, List, [], ◌∷◌, arith,
}
use stablecoin_treasury.Prelude.Int.{pos, negsuc}
use stablecoin_treasury.Money.Convert.{finite, from_string, to_string}
use stablecoin_treasury.Money.RoundTrip.{from_string-to_string}
use stablecoin_treasury.Ledger.Types.{
  Wallet, Ledger, wallet, settlement_clearing, credit, debit, debits, credits,
}
use stablecoin_treasury.Ledger.Debit.{DebitReply, DebitRequest, debit_route}
use stablecoin_treasury.Ledger.Sums.{all_debits, all_credits}
use stablecoin_treasury.Ledger.Laws.{
  debit_route_sound, debit_route-idempotent, IsBalanced, IsSolvent,
}
use stablecoin_treasury.Custody.Breaker.{new_breaker}
use stablecoin_treasury.Custody.BreakerLaws.{
  Call, breaker_calls, meaning_calls, counting, breaker_calls-meaning,
}
use stablecoin_treasury.Platform.Jobs.{enqueue_job, execute_payment}
use stablecoin_treasury.Platform.Queue.{Queue, claim_jobs}
use stablecoin_treasury.Platform.Attempts.{enqueue, claim, start_queue, then_step}
use stablecoin_treasury.Platform.Tries.{starts, limit_of}
use stablecoin_treasury.Platform.Starts.{jobs_start_bounded}
use stablecoin_treasury.Policy.Evaluate.{Evaluation, Policies, counterparty_approved}
use stablecoin_treasury.Reconciliation.Matching.{
  Matching, Line, SettledPayment, Statement, unmatched, match_statement,
}
use stablecoin_treasury.Reconciliation.MatchedOnce.{matched_rows, match_statement-once}
use stablecoin_treasury.Http.Client.{
  Sent, service_request, timed_out, reply, service_request-bounded,
}
use stablecoin_treasury.Http.Limits.{request, tick, allowed, rate_check-bounded}

abbrev wallet_3 : Wallet
wallet_3 = record { id = 3; tenant_id = 1; asset_id = 1; is_active = true }

-- A wallet with 50.00 that came in from outside.
abbrev ledger : Ledger
ledger = record {
  wallets = wallet_3 ∷ [];
  accounts = [];
  transactions = [];
  entries =
      record {
        account = record { tenant_id = 1; owner = wallet 3; asset_id = 1 };
        direction = credit;
        amount = 5000;
      }
      ∷ record {
        account = record { tenant_id = 1; owner = settlement_clearing; asset_id = 1 };
        direction = debit;
        amount = 5000;
      }
      ∷ [];
}

abbrev debit_20 : DebitRequest
debit_20 = record {
  idempotency_key = some 7;
  principal = finite (pos 2000);
  fee = finite (pos 240);
  destination_wallet_id = none;
  payment_id = some 7;
}

ledger-IsSolvent : IsSolvent ledger
unfolding debits credits
ledger-IsSolvent = ground arith

debit_route_sound_example :
    IsBalanced (debit_route 3 1 debit_20 ledger).1 × IsSolvent (debit_route 3 1 debit_20 ledger).1
unfolding all_debits all_credits
debit_route_sound_example = debit_route_sound 3 1 debit_20 ledger refl ledger-IsSolvent

debit_route-idempotent_example :
    (debit_route 3 1 debit_20 (debit_route 3 1 debit_20 ledger).1).1
    ≡ (debit_route 3 1 debit_20 ledger).1
debit_route-idempotent_example = debit_route-idempotent 3 1 debit_20 ledger

abbrev debit_reply : DebitReply
debit_reply = record { amount = 2240; balance = pos 2760 }

abbrev calls : List Call
calls =
    record { time = 1; succeeds = false }
    ∷ record { time = 2; succeeds = false }
    ∷ record { time = 3; succeeds = true }
    ∷ record { time = 20; succeeds = true }
    ∷ []

breaker_calls-meaning_example :
    breaker_calls 2 10 calls new_breaker ≡ meaning_calls 2 10 calls (counting 0)
breaker_calls-meaning_example = breaker_calls-meaning 2 10 calls (omega arith)

abbrev empty_queue : Queue
empty_queue = record { jobs = record { rows = []; next_id = 1 }; trail = []; outbox = [] }

abbrev one_job : Queue
one_job = record empty_queue {
  jobs = (enqueue_job execute_payment 7 0 5 1 1000 empty_queue.jobs).1;
}

jobs_start_bounded_example :
    starts 1 (claim_jobs 1 5 2000 one_job).1.trail
    ≤ limit_of 1 (claim_jobs 1 5 2000 one_job).1.jobs.rows
jobs_start_bounded_example =
    jobs_start_bounded {start = empty_queue} {q = (claim_jobs 1 5 2000 one_job).1} 1 refl refl (
      then_step (then_step start_queue (enqueue execute_payment 7 0 5 1 1000 (omega arith)))
        (claim 1 5 2000))

abbrev policies : Policies
policies = record {
  thresholds = record {
    approval_threshold = 100000;
    second_approval_threshold = 100000000;
    hard_transfer_limit = 1000000000;
  };
  allowed_assets = "EURC" ∷ [];
  allowed_providers = 9 ∷ [];
  require_screening = true;
  concentration_limit = record { numerator = 1; denominator = 1 };
}

abbrev evaluation : Evaluation
evaluation = record {
  asset = "EURC";
  amount = 2000;
  fee = 240;
  required_approvals = 1;
  balance = 5000;
  asset_enabled = true;
  counterparty = counterparty_approved;
  provider_id = 9;
  provider_operational = true;
  wallets = some (record { asset = "EURC"; balance = 5000 } ∷ []);
}

abbrev line : Line
line = record {
  id = 1;
  statement_id = 1;
  provider_ref = some 501;
  amount = 2000;
  asset = "EURC";
  occurred_at = some 5000;
  match_status = unmatched;
  match_confidence = none;
}

abbrev settled_payment : SettledPayment
settled_payment = record {
  id = 7;
  provider_ref = some 501;
  amount = 2000;
  fee = 240;
  asset = "EURC";
  is_settled = true;
  settled_at = some 5000;
}

abbrev books : Matching
books = record {
  lines = line ∷ [];
  rows = [];
  matched_count = 0;
  exceptions = 0;
  categories = [];
  matched_refs = [];
}

abbrev statement_1 : Statement
statement_1 = record { id = 1; period = some (0, 10000) }

match_statement-once_example :
    matched_rows 7 (match_statement statement_1 (line ∷ []) (settled_payment ∷ []) books).rows ≤ 1
unfolding matched_rows
match_statement-once_example =
    match_statement-once 7 statement_1 (line ∷ []) (settled_payment ∷ []) books (omega arith)

rate_check-bounded_example :
    allowed 1000 2
      (request 5 ∷ request 6 ∷ tick 7 ∷ request 8 ∷ [])
      (some (record { tokens = 1; reset_at = 4 }))
    ≤ 2
rate_check-bounded_example =
    rate_check-bounded 1000 2 5 (some (record { tokens = 1; reset_at = 4 }))
      (request 6 ∷ tick 7 ∷ request 8 ∷ []) (ground arith) (ground arith)

service_request-bounded_example :
    Sent 3 (service_request 2 true (timed_out ∷ reply 503 (some 0) ∷ reply 200 (some 1) ∷ [])).1
    × ((service_request 2 false (timed_out ∷ reply 503 (some 0) ∷ reply 200 (some 1) ∷ [])).1 ≡ 1)
service_request-bounded_example =
    service_request-bounded 2 (timed_out ∷ reply 503 (some 0) ∷ reply 200 (some 1) ∷ [])

-- -0.34
from_string-to_string_example : from_string (to_string (negsuc 33)) ≡ some (negsuc 33)
from_string-to_string_example = from_string-to_string (negsuc 33)
