-- ===== src/Payment/FourEyes/Handlers.antt =====
-- Every handler of the payment service keeps the four-eyes invariant, whatever database its first
-- read saw.
use stablecoin_treasury.Prelude.{
  ℕ, ◌≡◌, refl, inl, inr, true, Option, none, some, arith, Bool-cases, Option-cases,
}
use stablecoin_treasury.Prelude.Outcome.{Outcome, ok, err, ◌>>=◌}
use stablecoin_treasury.Platform.Events.{Action, payment_blocked, execution_blocked}
use stablecoin_treasury.Payment.Types.{
  Status, pending_approval, approved, cancelled, executing, failed, status_eq, Payment, Db, Error,
  Decision, User, policy_auto_id,
}
use stablecoin_treasury.Payment.Table.{find_row, find_payment}
use stablecoin_treasury.Payment.Updated.{status_eq→≡}
use stablecoin_treasury.Payment.Approve.{
  ApprovalContext, approve_payment, approve_tx, block_tx, block_log, approver_of, display_of,
}
use stablecoin_treasury.Payment.Execute.{
  execute_payment, execute_tx, enqueue_log, cancel_payment, cancel_tx, audit_cancel, guarded_update,
  retry_execution, without_row, is_cancellable,
}
use stablecoin_treasury.Payment.Branches.{
  approve_payment-preserves, execute_payment-preserves, cancel_payment-preserves,
  retry_execution-preserves,
}
use stablecoin_treasury.Payment.FourEyes.Counts.{Inv, is_released, Keeps, with_transaction-Inv}
use stablecoin_treasury.Payment.FourEyes.Updates.{
  transition_in_tx-Keeps, update_status-Keeps, approve_tx-Keeps,
}

>>=-Keeps :
    {A B : Type 0} (m : Outcome Error (A × Db)) (f : A × Db → Outcome Error (B × Db))
    → Keeps m
    → ((a : A) (db : Db) → Inv db → Keeps (f (a, db)))
    → Keeps (m >>= f)
>>=-Keeps (ok (a, db)) f k next = next a db k
>>=-Keeps (err e) f k next = tt

module _ (id tenant : ℕ) (db : Db) (h : Inv db) where
  block_log-Keeps :
      (action : Action) (actor object : ℕ) (o : Option Payment) (db' : Db)
      → Inv db'
      → Keeps (block_log id tenant action actor object (o, db'))
  unfolding find_payment
  block_log-Keeps action actor object (some p) db' k = k
  block_log-Keeps action actor object none db' k =
      elim (Option-cases (find_row id tenant db'.payments)) [
        | inl e ↦ rw (e, Keeps, find_payment) tt
        | inr (p, e) ↦ rw (e, Keeps, find_payment) k
      ]

  block_tx-Keeps :
      (from : Status) (action : Action) (actor object : ℕ)
      → Keeps (block_tx id tenant from action actor object db)
  unfolding block_tx
  block_tx-Keeps from action actor object =
      >>=-Keeps _ (block_log id tenant action actor object)
        (transition_in_tx-Keeps id tenant db h from _ (λ no. cc))
        (block_log-Keeps action actor object)

  execute_tx-Keeps : (now object : ℕ) → Keeps (execute_tx id tenant now object db)
  unfolding execute_tx
  execute_tx-Keeps now object =
      >>=-Keeps _ (enqueue_log id tenant now object)
        (transition_in_tx-Keeps id tenant db h approved executing (λ _. refl))
        (λ o db' k. elim o as (λ q. Keeps (enqueue_log id tenant now object (q, db'))) [
          | none ↦ tt
          | some p ↦ k
        ])

  cancel_tx-Keeps : (display : ℕ) → Keeps (cancel_tx id tenant display db)
  unfolding cancel_tx
  cancel_tx-Keeps display = elim (Option-cases (find_row id tenant db.payments)) [
    | inl e ↦ rw (e, Keeps, cancel_tx) tt
    | inr (p, e) ↦ elim (Bool-cases (is_cancellable p.status)) [
      | inr late ↦ rw (e, Keeps, cancel_tx, late) h
      | inl early ↦
          rw (e, Keeps, cancel_tx, early)
            (>>=-Keeps _ (audit_cancel id tenant display)
              (update_status-Keeps id tenant db h cancelled (λ old found step no. cc))
              (λ o db' k. elim o as (λ q. Keeps (audit_cancel id tenant display (q, db'))) [
                | none ↦ tt
                | some q ↦ k
              ]))
    ]
  ]

  -- A guarded status change keeps the invariant where `from` was released already.
  pub guarded_update-Keeps :
      (from to : Status)
      → (is_released to ≡ true → is_released from ≡ true)
      → Keeps (guarded_update id tenant from to db)
  unfolding guarded_update
  guarded_update-Keeps from to release = elim (Option-cases (find_row id tenant db.payments)) [
    | inl e ↦ rw (e, Keeps, guarded_update) h
    | inr (p, e) ↦ elim (Bool-cases (status_eq p.status from)) [
      | inr moved ↦ rw (e, Keeps, guarded_update, moved) h
      | inl here ↦
          rw (e, Keeps, guarded_update, here)
            (>>=-Keeps _ without_row
              (update_status-Keeps id tenant db h to
                (λ old found step rel. ground (arith, status_eq→≡ p.status from here, release rel)))
              (λ o db' k. k))
    ]
  ]

  -- An approval keeps the invariant, on every branch.
  pub approve_payment-Inv :
      (ctx : ApprovalContext) (user : Option User) (seen : Db)
      → Inv (approve_payment ctx id tenant user seen db).1
  approve_payment-Inv ctx user seen =
      approve_payment-preserves Inv id tenant db h ctx user seen
        (λ display object.
          with_transaction-Inv (block_tx id tenant pending_approval payment_blocked display object)
            db h (block_tx-Keeps pending_approval payment_blocked display object))
        (with_transaction-Inv (approve_tx id tenant (approver_of user) (display_of user)) db h
          (approve_tx-Keeps id tenant db h (approver_of user) (display_of user)))

  pub execute_payment-Inv :
      (evaluation : Outcome Error Decision) (now : ℕ) (seen : Db)
      → Inv (execute_payment evaluation id tenant now seen db).1
  execute_payment-Inv evaluation now seen =
      execute_payment-preserves Inv id tenant db h evaluation now seen
        (λ object.
          with_transaction-Inv (block_tx id tenant approved execution_blocked policy_auto_id object)
            db h (block_tx-Keeps approved execution_blocked policy_auto_id object))
        (λ object.
          with_transaction-Inv (execute_tx id tenant now object) db h (execute_tx-Keeps now object))

  pub cancel_payment-Inv :
      (user : Option User) (seen : Db) → Inv (cancel_payment id tenant user seen db).1
  cancel_payment-Inv user seen = cancel_payment-preserves Inv id tenant db h user seen (
      with_transaction-Inv (cancel_tx id tenant (display_of user)) db h
        (cancel_tx-Keeps (display_of user)))

  pub retry_execution-Inv : (now : ℕ) (seen : Db) → Inv (retry_execution id tenant now seen db).1
  retry_execution-Inv now seen =
      retry_execution-preserves Inv id tenant db h now seen (λ db' k. k)
        (with_transaction-Inv (guarded_update id tenant failed executing) db h
          (guarded_update-Keeps failed executing (λ _. refl)))
