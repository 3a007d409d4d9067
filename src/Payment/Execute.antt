-- ===== src/Payment/Execute.antt =====
-- `executePayment`, `cancelPayment` and `retryExecution`
-- (services/payment-service/src/payments.mjs), and the expiry sweep of
-- services/job-worker/src/handlers/expiry.mjs. `seen` is the database of a handler's first
-- read, `db` the one its transaction runs on.
use stablecoin_treasury.Prelude.{
  ℕ, ◌+◌, ◌*◌, Bool, true, false, not, ◌&&◌, Option, none, some, [], ◌∷◌, ◌++◌, ltb, ◌==◌,
  if◌then◌else◌, any, select, map,
}
use stablecoin_treasury.Prelude.Outcome.{Outcome, ok, err, ◌>>=◌}
use stablecoin_treasury.Platform.Events.{
  execution_blocked, execution_enqueued, payment_cancelled, payment_expired, OutboxEvent,
  append_outbox_events, with_tenant,
}
use stablecoin_treasury.Platform.Jobs.{execute_payment as execute_payment_job, enqueue_job}
use stablecoin_treasury.Payment.Types.{
  Status, pending_approval, approved, cancelled, executing, settled, failed, status_eq, Payment,
  PaymentEvent, KeyRow, KeyStatus, key_pending, key_done, Db, Error, invalid_state, review_required,
  concurrent_modification, missing_row, Decision, clear, review, block, User, system_id,
  policy_auto_id,
}
use stablecoin_treasury.Payment.Table.{
  find_row, find_payment, update_payment, with_transaction, on_found,
}
use stablecoin_treasury.Payment.Approve.{
  audit_event, log_audit, transition_in_tx, block_tx, display_of,
}

-- `{ accepted, payment, message }` without the text.
pub record Execution : Type 0 where
  pub accepted : Bool
  pub payment : Payment

-- `enqueueJob("execute-payment", …, { maxAttempts: 5 })`
abbrev pub enqueue_saga : ℕ → ℕ → ℕ → Db → Db
enqueue_saga id tenant now db = record db {
  jobs = (enqueue_job execute_payment_job id 0 5 tenant now db.jobs).1;
}

abbrev pub enqueue_log : ℕ → ℕ → ℕ → ℕ → Option Payment × Db → Outcome Error (Payment × Db)
enqueue_log id tenant now object (none, db) = err concurrent_modification
enqueue_log id tenant now object (some p, db) =
    ok (p, log_audit tenant id execution_enqueued system_id object (enqueue_saga id tenant now db))

-- The transition to Executing, the saga job and the audit event in one transaction.
unfoldable pub execute_tx : ℕ → ℕ → ℕ → ℕ → Db → Outcome Error (Payment × Db)
execute_tx id tenant now object db =
    transition_in_tx id tenant approved executing db >>= enqueue_log id tenant now object

abbrev pub as_execution : Bool → Outcome Error Payment × Db → Outcome Error Execution × Db
as_execution accepted (r, db) = (r >>= λ p. ok (record { accepted = accepted; payment = p }), db)

-- The branches on the evaluation of an approved payment.
unfoldable pub execute_decided :
    ℕ → ℕ → ℕ → Payment → Db → Outcome Error Decision → Outcome Error Execution × Db
execute_decided id tenant now p db (err e) = (err e, db)
execute_decided id tenant now p db (ok block) =
    as_execution false (
      with_transaction (block_tx id tenant approved execution_blocked policy_auto_id p.reference)
        db)
execute_decided id tenant now p db (ok review) = (err review_required, db)
execute_decided id tenant now p db (ok clear) =
    as_execution true (with_transaction (execute_tx id tenant now p.reference) db)

unfoldable pub execute_found :
    Outcome Error Decision → ℕ → ℕ → ℕ → Db → Payment → Outcome Error Execution × Db
execute_found evaluation id tenant now db p =
    if status_eq p.status settled
    then (ok (record { accepted = false; payment = p }), db)
    else if status_eq p.status executing
    then (ok (record { accepted = true; payment = p }), db)
    else if not (status_eq p.status approved)
    then (err invalid_state, db)
    else execute_decided id tenant now p db evaluation

unfoldable pub execute_payment :
    Outcome Error Decision → ℕ → ℕ → ℕ → Db → Db → Outcome Error Execution × Db
execute_payment evaluation id tenant now seen db =
    on_found (find_payment id tenant seen) db (execute_found evaluation id tenant now db)

abbrev pub is_cancellable : Status → Bool
is_cancellable s = any (status_eq s) (pending_approval ∷ approved ∷ [])

abbrev pub audit_cancel : ℕ → ℕ → ℕ → Option Payment × Db → Outcome Error (Payment × Db)
audit_cancel id tenant display (none, db) = err missing_row
audit_cancel id tenant display (some p, db) =
    ok (p, log_audit tenant id payment_cancelled display p.reference db)

unfoldable pub cancel_tx : ℕ → ℕ → ℕ → Db → Outcome Error (Payment × Db)
cancel_tx id tenant display db = elim (find_row id tenant db.payments) [
  | none ↦ err missing_row
  | some current ↦
      if not (is_cancellable current.status)
      then ok (current, db)
      else (update_payment id tenant (λ p. record p { status = cancelled }) db
          >>= audit_cancel id tenant display)
]

unfoldable pub cancel_found : ℕ → ℕ → Option User → Db → Payment → Outcome Error Payment × Db
cancel_found id tenant user db p =
    if status_eq p.status cancelled
    then (ok p, db)
    else if not (is_cancellable p.status)
    then (err invalid_state, db)
    else with_transaction (cancel_tx id tenant (display_of user)) db

unfoldable pub cancel_payment : ℕ → ℕ → Option User → Db → Db → Outcome Error Payment × Db
cancel_payment id tenant user seen db =
    on_found (find_payment id tenant seen) db (cancel_found id tenant user db)

abbrev pub without_row : Option Payment × Db → Outcome Error (Unit {0} × Db)
without_row (_, db) = ok (tt, db)

-- `UPDATE … SET status = $to WHERE id AND tenant_id AND status = $from`, alone.
unfoldable pub guarded_update : ℕ → ℕ → Status → Status → Db → Outcome Error (Unit {0} × Db)
guarded_update id tenant from to db = elim (find_row id tenant db.payments) [
  | none ↦ ok (tt, db)
  | some p ↦
      if status_eq p.status from
      then (update_payment id tenant (λ q. record q { status = to }) db >>= without_row)
      else ok (tt, db)
]

-- The first statement of `retryExecution`, for a payment that was read as `p`.
unfoldable pub reopen : ℕ → ℕ → Payment → Db → Outcome Error (Unit {0}) × Db
reopen id tenant p db =
    if status_eq p.status failed
    then with_transaction (guarded_update id tenant failed executing) db
    else (ok tt, db)

-- The job, and the answer that reads the payment again.
abbrev pub retry_enqueue : ℕ → ℕ → ℕ → Outcome Error (Unit {0}) × Db → Outcome Error Execution × Db
retry_enqueue id tenant now (err e, db) = (err e, db)
retry_enqueue id tenant now (ok _, db) =
    let db' = enqueue_saga id tenant now db in
    (find_payment id tenant db' >>= λ q. ok (record { accepted = true; payment = q }), db')

unfoldable pub retry_found : ℕ → ℕ → ℕ → Db → Payment → Outcome Error Execution × Db
retry_found id tenant now db p =
    if not (any (status_eq p.status) (executing ∷ failed ∷ []))
    then (err invalid_state, db)
    else retry_enqueue id tenant now (reopen id tenant p db)

-- `retryExecution`: its statements are committed one by one, not in a transaction.
unfoldable pub retry_execution : ℕ → ℕ → ℕ → Db → Db → Outcome Error Execution × Db
retry_execution id tenant now seen db =
    on_found (find_payment id tenant seen) db (retry_found id tenant now db)

-- 72 hours in milliseconds.
abbrev pub expiry_ms : ℕ
expiry_ms = 72 * 3600000

unfoldable pub is_stale : ℕ → ℕ → Payment → Bool
is_stale tenant now p =
    status_eq p.status pending_approval
    && (p.tenant_id == tenant && ltb (p.created_at + expiry_ms) now)

abbrev pub expire_row : ℕ → ℕ → Payment → Payment
expire_row tenant now p = if is_stale tenant now p then record p { status = cancelled } else p

abbrev expiry_event : Payment → PaymentEvent
expiry_event p = record { payment_id = p.id; from_status = some p.status; to_status = cancelled }

abbrev expiry_audit : Payment → OutboxEvent
expiry_audit p = audit_event p.id payment_expired system_id p.reference

-- One tenant's round of `expireStalePayments`: the UPDATE (whose only transition the trigger
-- allows) and the audit events, in one transaction.
unfoldable pub expire_stale_payments : ℕ → ℕ → Db → Db
expire_stale_payments tenant now db =
    let stale = select (is_stale tenant now) db.payments in
    record db {
      payments = map (expire_row tenant now) db.payments;
      events = map expiry_event stale ++ db.events;
      outbox = append_outbox_events db.outbox (with_tenant tenant (map expiry_audit stale));
    }

-- 48 hours in milliseconds.
abbrev sweep_ms : ℕ
sweep_ms = 48 * 3600000

abbrev is_done_key : KeyStatus → Bool
is_done_key key_pending = false
is_done_key key_done = true

abbrev is_kept : ℕ → KeyRow → Bool
is_kept now k = not (is_done_key k.status && ltb (k.created_at + sweep_ms) now)

-- `sweepIdempotencyKeys`
unfoldable pub sweep_idempotency_keys : ℕ → Db → Db
sweep_idempotency_keys now db = record db { keys = select (is_kept now) db.keys }
