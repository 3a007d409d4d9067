-- ===== src/Payment/Branches.antt =====
-- A handler leaves the database alone, or it runs one transaction: what the transactions keep,
-- the handler keeps.
use stablecoin_treasury.Prelude.{ℕ, Option, inl, inr, arith}
use stablecoin_treasury.Prelude.Outcome.{Outcome, ok, err, Outcome-cases}
use stablecoin_treasury.Platform.Events.{payment_blocked, execution_blocked}
use stablecoin_treasury.Payment.Types.{
  pending_approval, approved, failed, executing, Payment, Db, Error, Decision, clear, review, block,
  User, policy_auto_id,
}
use stablecoin_treasury.Payment.Table.{find_payment, with_transaction}
use stablecoin_treasury.Payment.Approve.{
  ApprovalContext, approve_payment, approve_decided, approve_found, approve_tx, block_tx,
  approver_of, display_of,
}
use stablecoin_treasury.Payment.Execute.{
  execute_payment, execute_decided, execute_found, cancel_found, retry_found, retry_enqueue,
  enqueue_saga, reopen, execute_tx, cancel_payment, cancel_tx, guarded_update, retry_execution,
}

module _ (I : Db → Type 0) (id tenant : ℕ) (db : Db) (h : I db) where
  module _ (ctx : ApprovalContext) (user : Option User) where
    approve_decided-I :
        (p : Payment) (d : Outcome Error Decision)
        → ((display object : ℕ)
            → I
                (with_transaction
                  (block_tx id tenant pending_approval payment_blocked display object)
                  db).1)
        → I (with_transaction (approve_tx id tenant (approver_of user) (display_of user)) db).1
        → I (approve_decided ctx id tenant user p db d).1
    unfolding approve_decided
    approve_decided-I p (err e) blocks approves = h
    approve_decided-I p (ok block) blocks approves = blocks (display_of user) p.reference
    approve_decided-I p (ok review) blocks approves = h
    approve_decided-I p (ok clear) blocks approves = ground arith

    pub approve_payment-preserves :
        (seen : Db)
        → ((display object : ℕ)
            → I
                (with_transaction
                  (block_tx id tenant pending_approval payment_blocked display object)
                  db).1)
        → I (with_transaction (approve_tx id tenant (approver_of user) (display_of user)) db).1
        → I (approve_payment ctx id tenant user seen db).1
    unfolding approve_payment approve_found
    approve_payment-preserves seen blocks approves =
        elim (Outcome-cases (find_payment id tenant seen)) [
          | inr (x, e) ↦ rw e h
          | inl (p, e) ↦ rw e (ground (arith, approve_decided-I p ctx.evaluation blocks approves))
        ]

  execute_decided-I :
      (now : ℕ) (p : Payment) (d : Outcome Error Decision)
      → ((object : ℕ)
          → I
              (with_transaction
                (block_tx id tenant approved execution_blocked policy_auto_id object)
                db).1)
      → ((object : ℕ) → I (with_transaction (execute_tx id tenant now object) db).1)
      → I (execute_decided id tenant now p db d).1
  unfolding execute_decided
  execute_decided-I now p (err e) blocks executes = h
  execute_decided-I now p (ok block) blocks executes = blocks p.reference
  execute_decided-I now p (ok review) blocks executes = h
  execute_decided-I now p (ok clear) blocks executes = executes p.reference

  pub execute_payment-preserves :
      (evaluation : Outcome Error Decision) (now : ℕ) (seen : Db)
      → ((object : ℕ)
          → I
              (with_transaction
                (block_tx id tenant approved execution_blocked policy_auto_id object)
                db).1)
      → ((object : ℕ) → I (with_transaction (execute_tx id tenant now object) db).1)
      → I (execute_payment evaluation id tenant now seen db).1
  unfolding execute_payment execute_found
  execute_payment-preserves evaluation now seen blocks executes =
      elim (Outcome-cases (find_payment id tenant seen)) [
        | inr (x, e) ↦ rw e h
        | inl (p, e) ↦ rw e (ground (arith, execute_decided-I now p evaluation blocks executes))
      ]

  pub cancel_payment-preserves :
      (user : Option User) (seen : Db)
      → I (with_transaction (cancel_tx id tenant (display_of user)) db).1
      → I (cancel_payment id tenant user seen db).1
  unfolding cancel_payment cancel_found
  cancel_payment-preserves user seen cancels = elim (Outcome-cases (find_payment id tenant seen)) [
    | inr (x, e) ↦ rw e h
    | inl (p, e) ↦ rw e (ground arith)
  ]

  retry_enqueue-I :
      (now : ℕ) (r : Outcome Error (Unit {0}) × Db)
      → ((db' : Db) → I db' → I (enqueue_saga id tenant now db'))
      → I r.1
      → I (retry_enqueue id tenant now r).1
  retry_enqueue-I now (ok u, db') enqueues k = enqueues db' k
  retry_enqueue-I now (err e, db') enqueues k = k

  pub retry_execution-preserves :
      (now : ℕ) (seen : Db)
      → ((db' : Db) → I db' → I (enqueue_saga id tenant now db'))
      → I (with_transaction (guarded_update id tenant failed executing) db).1
      → I (retry_execution id tenant now seen db).1
  unfolding retry_execution retry_found reopen
  retry_execution-preserves now seen enqueues reopens =
      elim (Outcome-cases (find_payment id tenant seen)) [
        | inr (x, e) ↦ rw e h
        | inl (p, e) ↦ rw e (
            ground (
              arith,
              retry_enqueue-I now (with_transaction (guarded_update id tenant failed executing) db)
                  enqueues reopens,
              retry_enqueue-I now (ok tt, db) enqueues h,
            ))
      ]
