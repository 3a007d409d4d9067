-- ===== src/Tests/Payments.antt =====
-- A payment of 2,000.00 EURC that is created by user 10, approved by user 11 and executed.
use stablecoin_treasury.Prelude.{◌≤◌, ◌≡◌, [], ◌∷◌, refl, true, false, none, some}
use stablecoin_treasury.Prelude.Int.{pos}
use stablecoin_treasury.Prelude.Outcome.{ok}
use stablecoin_treasury.Money.Convert.{finite, parse_money_input}
use stablecoin_treasury.Platform.Jobs.{enqueue_job}
use stablecoin_treasury.Payment.Types.{
  KeyRow, key_done, pending_approval, Payment, cancelled, Db, Decision, User,
}
use stablecoin_treasury.Payment.Table.{
  find_row, find_payment, update_payment, transition_trigger, transition_allowed,
}
use stablecoin_treasury.Platform.Events.{append_outbox_events}
use stablecoin_treasury.Policy.Value.{required_approvals_for}
use stablecoin_treasury.Payment.Approve.{
  approve_found, approve_decided, approve_tx, record_approval, policy_missing, self_forbidden,
  count_approvers, transition_in_tx, ApprovalContext, approve_payment,
}
use stablecoin_treasury.Payment.Execute.{
  cancel_payment, execute_found, execute_decided, execute_tx, execute_payment,
}
use stablecoin_treasury.Payment.Create.{
  create_payment, create_shaped, shape_payment, payment_amount, build_payment_shape, create_tx,
  insert_payment, create_finish, auto_approve, build_creation_outbox_events, estimate_fee, Input,
  CreateContext, create_body,
}
use stablecoin_treasury.Payment.Keys.{complete_idempotency_key}
use stablecoin_treasury.Payment.System.{
  cancel, create, approve, execute, Reach, here, next, empty_db,
}
use stablecoin_treasury.Payment.Lifecycle.Moves.{Follows}
use stablecoin_treasury.Payment.Lifecycle.Terminal.{Step-Follows, ended_for_good, Later}
use stablecoin_treasury.Payment.SelfApproval.{creator_never_approves}
use stablecoin_treasury.Payment.Replay.{create_payment-replay}
use stablecoin_treasury.Payment.FourEyes.Theorem.{released_needs_approvers}

abbrev context : CreateContext
context = record {
  wallet = ok (3, "EURC");
  counterparty = ok (4, "Approved");
  policy = ok (record {
    approval_threshold = 100000;
    second_approval_threshold = 100000000;
    hard_transfer_limit = 1000000000;
  });
  evaluation = ok Decision.clear;
  fresh_id = 7;
  now = 1000;
}

abbrev input : Input
input = record { type = none; amount = finite (pos 200000); memo = "" }

abbrev creator : User
creator = record { id = 10; display = 10 }

abbrev approver : User
approver = record { id = 11; display = 11 }

abbrev approval : ApprovalContext
approval = record {
  evaluation = ok Decision.clear;
  auth_required = true;
  policy_reachable = true;
  self_approval_allowed = false;
}

created : Db
created = (create_body context input none 1 (some creator) empty_db).1

approved_db : Db
approved_db = (approve_payment approval 7 1 (some approver) created created).1

executed : Db
executed = (execute_payment (ok Decision.clear) 7 1 2000 approved_db approved_db).1

run : Reach empty_db executed
unfolding created approved_db executed
run =
    next
      (next (next here (create context input none 1 (some creator)))
        (approve approval 7 1 (some approver) created))
      (execute (ok Decision.clear) 7 1 2000 approved_db)

released_needs_approvers_example : 1 ≤ 1
unfolding executed approved_db created execute_payment execute_found execute_decided execute_tx
    transition_in_tx update_payment transition_trigger transition_allowed find_payment
    approve_payment approve_found approve_decided approve_tx record_approval policy_missing
    self_forbidden count_approvers create_body create_shaped shape_payment payment_amount
    build_payment_shape create_tx insert_payment create_finish auto_approve
    build_creation_outbox_events complete_idempotency_key append_outbox_events enqueue_job
    estimate_fee required_approvals_for parse_money_input
released_needs_approvers_example = released_needs_approvers 7 1 run refl refl

-- A payment that was cancelled, and an attempt to approve it.
abbrev dropped : Payment
dropped = record {
  id = 7;
  tenant_id = 1;
  reference = 1005;
  type = "Supplier";
  source_wallet_id = 3;
  counterparty_id = 4;
  asset = "EURC";
  amount = 200000;
  fee = 258;
  status = cancelled;
  approvals = 0;
  required_approvals = 1;
  screen_result = "Clear";
  created_at = 1000;
  settled_at = none;
  provider_ref = none;
  chain_ref = none;
  memo = "";
  created_by = some 10;
}

abbrev dropped_db : Db
dropped_db = record empty_db { payments = dropped ∷ [] }

ended_for_good_example :
    (q : Payment) × (find_row 7 1
        (approve_payment approval 7 1 (some approver) dropped_db dropped_db).1.payments
      ≡ some q)
    × Later dropped q
ended_for_good_example =
    ended_for_good 7 1 dropped (next here (approve approval 7 1 (some approver) dropped_db)) refl

Step-Follows_example :
    Follows dropped_db.payments (cancel_payment 7 1 (some creator) dropped_db dropped_db).1.payments
Step-Follows_example = Step-Follows {db = dropped_db} (cancel 7 1 (some creator) dropped_db)

-- A payment that waits for an approval, which its creator gives.
abbrev waiting_db : Db
waiting_db = record empty_db { payments = record dropped { status = pending_approval } ∷ [] }

creator_never_approves_example :
    (approve_payment approval 7 1 (some creator) waiting_db waiting_db).1.approvals
    ≡ waiting_db.approvals
creator_never_approves_example =
    creator_never_approves approval 7 1 creator (record dropped { status = pending_approval })
      waiting_db waiting_db refl refl refl refl

-- The key 5 was used for a request with hash 77.
abbrev used_key : KeyRow
used_key = record {
  tenant_id = 1;
  idempotency_key = 5;
  request_hash = 77;
  status = key_done;
  payment_id = some 7;
  created_at = 1000;
}

abbrev used_db : Db
used_db = record dropped_db { keys = used_key ∷ [] }

create_payment-replay_example :
    (create_payment context input 78 (some 5) 1 (some creator) (λ d. d) used_db).1 ≡ used_db
create_payment-replay_example =
    create_payment-replay context input 78 5 1 (some creator) (λ d. d) used_db used_key refl
