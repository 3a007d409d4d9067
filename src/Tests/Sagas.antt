-- ===== src/Tests/Sagas.antt =====
-- A payment that is Executing: a run of the saga that settles it, and one that a provider's
-- failure ends.
use stablecoin_treasury.Saga.Steps.{check_policy, provide, submit}
use stablecoin_treasury.Custody.Breaker.{enter_breaker, call_succeeded}
use stablecoin_treasury.Prelude.Int.{◌-ℤ◌}
use stablecoin_treasury.Money.Convert.{parse_money_input}
use stablecoin_treasury.Platform.Events.{append_outbox_events}
use stablecoin_treasury.Payment.Table.{update_payment, transition_trigger, transition_allowed}
use stablecoin_treasury.Payment.Execute.{guarded_update}
use stablecoin_treasury.Payment.Settlement.{persist_refs, settle_payment, fail_payment}
use stablecoin_treasury.Prelude.{refl, true, false, none, some, List, [], ◌∷◌, ◌≡◌}
use stablecoin_treasury.Prelude.Outcome.{ok}
use stablecoin_treasury.Payment.Types.{block, Payment, clear, executing, settled, failed}
use stablecoin_treasury.Payment.System.{empty_db}
use stablecoin_treasury.Ledger.Types.{Wallet, wallet, credit, Entry, debits, credits}
use stablecoin_treasury.Custody.Adapter.{simulated, simulated_submit, resolve_adapter}
use stablecoin_treasury.Saga.World.{World, get_breaker}
use stablecoin_treasury.Saga.Monad.{Fate, runs, world_of}
use stablecoin_treasury.Saga.Run.{Job, Answers, record_attempt, ensure_provider_submission}
use stablecoin_treasury.Saga.Settle.{execute_saga, attempted, settle, finish}
use stablecoin_treasury.Ledger.Debit.{
  debit_route, debit_wallet, post_transaction, destination_wallet, wallet_balance, get_or_create,
}
use stablecoin_treasury.Saga.Complete.{Returned, Undisturbed}
use stablecoin_treasury.Saga.Phases.{At}
use stablecoin_treasury.Saga.Settles.{saga_settles, FullySettled}
use stablecoin_treasury.Custody.Breaker.{new_breaker}
use stablecoin_treasury.Saga.Failure.{failed_never_debited}
use stablecoin_treasury.Saga.OneTransfer.{Attempted}
use stablecoin_treasury.Saga.Safety.{settled_after_debit, HasStatus, Accounted}

abbrev payment : Payment
payment = record {
  id = 7;
  tenant_id = 1;
  reference = 1005;
  type = "Supplier";
  source_wallet_id = 3;
  counterparty_id = 4;
  asset = "EURC";
  amount = 2000;
  fee = 240;
  status = executing;
  approvals = 1;
  required_approvals = 1;
  screen_result = "Clear";
  created_at = 1000;
  settled_at = none;
  provider_ref = none;
  chain_ref = none;
  memo = "";
  created_by = some 10;
}

abbrev wallet_3 : Wallet
wallet_3 = record { id = 3; tenant_id = 1; asset_id = 1; is_active = true }

abbrev deposit : Entry
deposit = record {
  account = record { tenant_id = 1; owner = wallet 3; asset_id = 1 };
  direction = credit;
  amount = 5000;
}

abbrev world : World
world = record {
  db = record empty_db { payments = payment ∷ [] };
  submissions = [];
  attempts = [];
  providers = record { id = 9; adapter = simulated } ∷ [];
  adapters = record { submissions = []; accepted = []; call_count = 0 };
  breakers = [];
  ledger = record {
    wallets = wallet_3 ∷ [];
    accounts = [];
    transactions = [];
    entries = deposit ∷ [];
  };
  posts = [];
}

abbrev saga_job : Job
saga_job = record { id = 1; tenant_id = 1; payment_id = 7 }

abbrev answers : Answers
answers = record {
  context = ok (record { provider_id = 9; counterparty_wallet = 5; wallets = [] });
  evaluation = ok clear;
  journals = ok tt;
  matched = ok tt;
  provider_ref = 501;
  chain_ref = 601;
  now = 5000;
  crash_double = false;
  max_failures = 5;
  reset_ms = 30000;
}

abbrev all_run : List Fate
all_run =
    runs ∷ runs ∷ runs ∷ runs ∷ runs ∷ runs ∷ runs ∷ runs ∷ runs ∷ runs ∷ runs ∷ runs ∷ runs ∷ runs
    ∷ runs ∷ runs ∷ runs ∷ runs ∷ runs ∷ runs ∷ runs ∷ runs ∷ runs ∷ runs ∷ runs ∷ runs ∷ runs
    ∷ runs ∷ runs ∷ runs ∷ []

settled_world : World
settled_world = world_of (execute_saga answers saga_job all_run world)

-- Nothing was settled before.
unsettled : HasStatus 7 1 settled world.db.payments → Accounted 7 1 world.ledger world.posts
unsettled (p, found, e) = cc

settled_after_debit_example : Accounted 7 1 settled_world.ledger settled_world.posts
unfolding settled_world execute_saga check_policy record_attempt provide ensure_provider_submission
    submit resolve_adapter get_breaker enter_breaker call_succeeded simulated_submit persist_refs
    update_payment transition_trigger transition_allowed attempted settle finish debit_route
    debit_wallet post_transaction destination_wallet wallet_balance get_or_create debits credits
    parse_money_input settle_payment fail_payment guarded_update ◌-ℤ◌ append_outbox_events
settled_after_debit_example = settled_after_debit answers saga_job all_run world unsettled (
  record payment {
    status = settled;
    settled_at = some 5000;
    provider_ref = some 501;
    chain_ref = some 601;
  },
  refl,
  refl,
)

saga_settles_example :
    Returned 0
      (λ _. At (
        FullySettled answers saga_job
          (record { provider_id = 9; counterparty_wallet = 5; wallets = [] })
          payment
          world.ledger))
      (execute_saga answers saga_job all_run world)
unfolding Undisturbed resolve_adapter get_breaker enter_breaker simulated_submit debit_route
    debit_wallet post_transaction destination_wallet wallet_balance get_or_create debits credits
    parse_money_input ◌-ℤ◌
saga_settles_example =
    saga_settles answers saga_job all_run world
      (record { provider_id = 9; counterparty_wallet = 5; wallets = [] }) payment simulated
      new_breaker (record { idempotency_key = 7; provider_ref = 501; chain_ref = 601 }) tt refl
      (refl, refl, refl, refl, refl) refl refl refl refl refl

abbrev blocked_answers : Answers
blocked_answers = record answers { evaluation = ok block }

failed_world : World
failed_world = world_of (execute_saga blocked_answers saga_job all_run world)

failed_never_debited_example : failed_world.ledger ≡ world.ledger
unfolding failed_world execute_saga check_policy record_attempt provide ensure_provider_submission
    submit resolve_adapter get_breaker enter_breaker call_succeeded simulated_submit persist_refs
    update_payment transition_trigger transition_allowed attempted settle finish debit_route
    debit_wallet post_transaction destination_wallet wallet_balance get_or_create debits credits
    parse_money_input settle_payment fail_payment guarded_update ◌-ℤ◌ append_outbox_events
failed_never_debited_example =
    failed_never_debited blocked_answers saga_job all_run world
      (record payment { status = failed }, refl, refl)

-- A run that crashes after the provider accepted, and one that goes through.
abbrev two_runs : List Attempted
two_runs =
    record {
      answers = answers;
      job = saga_job;
      fates = runs ∷ runs ∷ runs ∷ runs ∷ runs ∷ runs ∷ runs ∷ runs ∷ runs ∷ runs ∷ [];
    }
    ∷ record { answers = answers; job = saga_job; fates = all_run }
    ∷ []
