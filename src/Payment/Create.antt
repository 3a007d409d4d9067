-- ===== src/Payment/Create.antt =====
-- `createPayment` (services/payment-service/src/payments.mjs).
use Prim.Native.String.{String}
use text.Mathlib.Text.{◌==◌ as str_eq}
use stablecoin_treasury.Prelude.{
  ℕ, ◌+◌, ◌*◌, ◌/◌, Bool, true, false, ◌&&◌, Option, none, some, List, [], ◌∷◌, ◌==◌, ltb,
  if◌then◌else◌, any,
}
use stablecoin_treasury.Prelude.Int.{ℤ, pos, negsuc}
use stablecoin_treasury.Prelude.Outcome.{Outcome, ok, err, ◌>>=◌}
use stablecoin_treasury.Platform.Events.{
  EventType, exception_opened, alert_created, audit_event_recorded, Action, payment_created,
  payment_auto_approved, payment_blocked, OutboxEvent, append_outbox_events, with_tenant,
}
use stablecoin_treasury.Money.Convert.{Value, absent, finite, parse_money_input}
use stablecoin_treasury.Policy.Value.{Policy, required_approvals_for}
use stablecoin_treasury.Payment.Types.{
  Status, pending_approval, approved, blocked, Payment, Approval, Db, Error, invalid_amount,
  idempotency_key_reuse, idempotency_in_progress, duplicate_id, Decision, clear, review, block,
  User, system_id, policy_auto_id,
}
use stablecoin_treasury.Payment.Table.{find_payment, with_transaction}
use stablecoin_treasury.Payment.Approve.{has_approval}
use stablecoin_treasury.Payment.Keys.{
  reserved, hash_mismatch, in_progress, done, reserve_idempotency_key, complete_idempotency_key,
  release_idempotency_key,
}

-- The request body.
pub record Input : Type 0 where
  pub type : Option String
  pub amount : Value
  pub memo : String

-- What the other services answer: the wallet, the counterparty and the policy, each or an error,
-- and the evaluation; the id that `createId` draws; the clock.
pub record CreateContext : Type 0 where
  pub wallet : Outcome Error (ℕ × String)
  pub counterparty : Outcome Error (ℕ × String)
  pub policy : Outcome Error Policy
  pub evaluation : Outcome Error Decision
  pub fresh_id : ℕ
  pub now : ℕ

-- `estimateFee` (packages/shared/data.mjs): principal * 0.00009, rounded half up, and a base.
unfoldable pub estimate_fee : ℕ → String → ℕ
estimate_fee amount asset =
    (amount * 9 + 50000) / 100000 + (if str_eq asset "USDC" then 320 else 240)

-- `input.amount ?? 0`, parsed; a payment is of a positive amount.
abbrev or_zero : Value → Value
or_zero absent = finite (pos 0)
or_zero v = v

abbrev positive : Option ℤ → Outcome Error ℕ
positive none = err invalid_amount
positive (some (pos n)) = if ltb 0 n then ok n else err invalid_amount
positive (some (negsuc n)) = err invalid_amount

unfoldable pub payment_amount : Value → Outcome Error ℕ
payment_amount v = positive (parse_money_input (or_zero v))

abbrev type_or_supplier : Option String → String
type_or_supplier none = "Supplier"
type_or_supplier (some t) = t

-- `buildPaymentShape`; `input.memo` stands for its trimmed text.
unfoldable pub build_payment_shape : Input → ℕ → ℕ → ℕ × String → ℕ × String → Policy → ℕ → Payment
build_payment_shape input id now wallet counterparty policy amount = record {
  id = id;
  tenant_id = 0;
  reference = 0;
  type = type_or_supplier input.type;
  source_wallet_id = wallet.0;
  counterparty_id = counterparty.0;
  asset = wallet.1;
  amount = amount;
  fee = estimate_fee amount wallet.1;
  status = pending_approval;
  approvals = 0;
  required_approvals = required_approvals_for amount wallet.1 policy;
  screen_result = if str_eq counterparty.1 "Approved" then "Clear" else counterparty.1;
  created_at = now;
  settled_at = none;
  provider_ref = none;
  chain_ref = none;
  memo = input.memo;
  created_by = none;
}

abbrev is_clear : Decision → Bool
is_clear clear = true
is_clear _ = false

abbrev pub is_auto_approved : Decision → Payment → Bool
is_auto_approved d p = is_clear d && p.required_approvals == 0

abbrev pub creation_status : Decision → Payment → Status
creation_status block p = blocked
creation_status clear p = if p.required_approvals == 0 then approved else pending_approval
creation_status review p = pending_approval

-- The events' `object` is the reference at the time of the call: "" (0), since the reference is
-- allocated in the transaction. The exception carries the payment itself.
abbrev creation_event : Payment → EventType → ℕ → Action → ℕ → OutboxEvent
creation_event p type actor action object = record {
  tenant_id = none;
  aggregate_id = p.id;
  event_type = type;
  payload = record { actor = actor; action = action; object = object };
}

-- `buildCreationOutboxEvents`
unfoldable pub build_creation_outbox_events : Payment → Decision → List OutboxEvent
build_creation_outbox_events p block =
    creation_event p exception_opened policy_auto_id payment_blocked p.id
    ∷ creation_event p alert_created policy_auto_id payment_blocked p.reference
    ∷ creation_event p audit_event_recorded policy_auto_id payment_blocked p.reference
    ∷ []
build_creation_outbox_events p d =
    if is_auto_approved d p
    then creation_event p audit_event_recorded policy_auto_id payment_auto_approved p.reference ∷ []
    else creation_event p audit_event_recorded system_id payment_created p.reference ∷ []

-- `insertPaymentInTx`: the reference from the sequence, the primary key, the trigger's event.
unfoldable pub insert_payment : Payment → Db → Outcome Error (Payment × Db)
insert_payment payment db =
    let p = record payment { reference = db.next_reference } in
    if any (λ q. q.id == p.id) db.payments
    then err duplicate_id
    else ok (
      p,
      record db {
        payments = p ∷ db.payments;
        events = record { payment_id = p.id; from_status = none; to_status = p.status } ∷ db.events;
        next_reference = db.next_reference + 1;
      },
    )

-- The automatic approval: INSERT … ON CONFLICT DO NOTHING and `approvals = 1`, on the row that
-- was just inserted.
abbrev pub auto_approvals : ℕ → ℕ → List Approval → List Approval
auto_approvals tenant id rows =
    if has_approval id policy_auto_id rows
    then rows
    else record { tenant_id = tenant; payment_id = id; approver_id = policy_auto_id } ∷ rows

abbrev pub with_one_approval : ℕ → ℕ → List Payment → List Payment
with_one_approval id tenant [] = []
with_one_approval id tenant (p ∷ ps) =
    let rest = with_one_approval id tenant ps in
    (if p.id == id && p.tenant_id == tenant then record p { approvals = 1 } else p) ∷ rest

unfoldable pub auto_approve : ℕ → Payment → Db → Payment × Db
auto_approve tenant p db = (
  record p { approvals = 1 },
  record db {
    approvals = auto_approvals tenant p.id db.approvals;
    payments = with_one_approval p.id tenant db.payments;
  },
)

-- After the INSERT: the automatic approval, the idempotency key and the outbox events.
unfoldable pub create_finish :
    Payment → Decision → Option ℕ → ℕ → Payment × Db → Outcome Error (Payment × Db)
create_finish payment d key tenant r =
    let (p, db) = if is_auto_approved d payment then auto_approve tenant r.0 r.1 else r in
    let db' = complete_idempotency_key key tenant p.id db in
    ok (
      p,
      record db' {
        outbox =
            append_outbox_events db'.outbox
              (with_tenant tenant (build_creation_outbox_events payment d));
      },
    )

abbrev pub shaped_payment : Payment → Decision → ℕ → Option ℕ → Payment
shaped_payment shape d tenant created_by = record shape {
  tenant_id = tenant;
  created_by = created_by;
  status = creation_status d shape;
}

-- The transaction of `createPayment` for a payment that is shaped and evaluated.
unfoldable pub create_tx :
    Payment → Decision → Option ℕ → ℕ → Option ℕ → Db → Outcome Error (Payment × Db)
create_tx shape d key tenant created_by db =
    let payment = shaped_payment shape d tenant created_by in
    insert_payment payment db >>= create_finish payment d key tenant

abbrev pub creator_of : Option User → Option ℕ
creator_of none = none
creator_of (some u) = some u.id

-- The calls of the other services, the parsed amount and the evaluation, in the order of the
-- body of the `try`; each may be an error.
unfoldable pub shape_payment : CreateContext → Input → Outcome Error (Payment × Decision)
shape_payment ctx input = ctx.wallet >>= λ wallet. ctx.counterparty >>= λ counterparty.
    ctx.policy >>= λ policy. payment_amount input.amount >>= λ amount. ctx.evaluation >>= λ d.
    ok (build_payment_shape input ctx.fresh_id ctx.now wallet counterparty policy amount, d)

unfoldable pub create_shaped :
    Option ℕ
    → ℕ
    → Option User
    → Db
    → Outcome Error (Payment × Decision)
    → Outcome Error Payment × Db
create_shaped key tenant user db (err e) = (err e, db)
create_shaped key tenant user db (ok (shape, d)) =
    with_transaction (create_tx shape d key tenant (creator_of user)) db

-- The body of the `try`.
unfoldable pub create_body :
    CreateContext → Input → Option ℕ → ℕ → Option User → Db → Outcome Error Payment × Db
create_body ctx input key tenant user db =
    create_shaped key tenant user db (shape_payment ctx input)

-- The `catch`: an error releases the key.
abbrev pub release_on_error : Option ℕ → ℕ → Outcome Error Payment × Db → Outcome Error Payment × Db
release_on_error key tenant (ok p, db) = (ok p, db)
release_on_error key tenant (err e, db) = (err e, release_idempotency_key key tenant db)

-- `createPayment`. `hash` is `hashRequest(input)`; `between` is what other transactions do
-- between the reservation and the rest.
unfoldable pub create_payment :
    CreateContext
    → Input
    → ℕ
    → Option ℕ
    → ℕ
    → Option User
    → (Db → Db)
    → Db
    → Outcome Error Payment × Db
create_payment ctx input hash none tenant user between db =
    create_body ctx input none tenant user (between db)
create_payment ctx input hash (some key) tenant user between db =
    let (r, db') = reserve_idempotency_key key hash tenant ctx.now db in
    elim r [
      | hash_mismatch ↦ (err idempotency_key_reuse, db')
      | in_progress ↦ (err idempotency_in_progress, db')
      | done id ↦ (find_payment id tenant db', db')
      | reserved ↦
          release_on_error (some key) tenant
            (create_body ctx input (some key) tenant user (between db'))
    ]
