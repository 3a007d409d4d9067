-- ===== src/Payment/Lifecycle/Steps.antt =====
-- Every step of the system moves each payment along the trigger's graph, or leaves it.
use stablecoin_treasury.Prelude.{
  ℕ, refl, inl, inr, Option, none, some, List, ◌∷◌, arith, Bool-cases, Option-cases,
}
use stablecoin_treasury.Prelude.Outcome.{Outcome}
use stablecoin_treasury.Platform.Events.{Action, payment_blocked, execution_blocked}
use stablecoin_treasury.Payment.Types.{
  Status, pending_approval, approved, blocked, cancelled, executing, failed, Payment, Db, Error,
  status_eq, Decision, User, policy_auto_id,
}
use stablecoin_treasury.Payment.Table.{find_row, find_payment, update_payment}
use stablecoin_treasury.Payment.Approve.{
  ApprovalContext, approve_payment, approve_tx, record_approval, new_approval, audit_approval,
  approval_patch, count_approvers, has_approval, transition_in_tx, block_tx, block_log, approver_of,
  display_of,
}
use stablecoin_treasury.Payment.Execute.{
  execute_payment, execute_tx, enqueue_log, cancel_payment, cancel_tx, audit_cancel, is_cancellable,
  guarded_update, without_row, retry_execution,
}
use stablecoin_treasury.Payment.Settlement.{
  persist_refs, with_refs, fail_payment, settle_payment, as_settled,
}
use stablecoin_treasury.Payment.Branches.{
  approve_payment-preserves, execute_payment-preserves, cancel_payment-preserves,
  retry_execution-preserves,
}
use stablecoin_treasury.Payment.Lifecycle.Moves.{
  Follows, Follows-refl, Leads, with_transaction-Follows, >>=-Leads, update_payment-Leads,
}

module _ (id tenant : ℕ) (db : Db) where
  status-Leads :
      (s : Status) → Leads db.payments (update_payment id tenant (λ q. record q { status = s }) db)
  status-Leads s =
      update_payment-Leads id tenant (λ q. record q { status = s }) db (λ p. (refl, refl))
        (λ p. ground arith)

  transition_in_tx-Leads :
      (from to : Status) → Leads db.payments (transition_in_tx id tenant from to db)
  unfolding transition_in_tx
  transition_in_tx-Leads from to = elim (Option-cases (find_row id tenant db.payments)) [
    | inl e ↦ rw (e, Leads, transition_in_tx) (Follows-refl db.payments)
    | inr (p, e) ↦ elim (Bool-cases (status_eq p.status from)) [
      | inr moved ↦ rw (e, Leads, transition_in_tx, moved) (Follows-refl db.payments)
      | inl here ↦ rw (e, Leads, transition_in_tx, here) (status-Leads to)
    ]
  ]

  block_log-Leads :
      (start : List Payment) (action : Action) (actor object : ℕ) (o : Option Payment) (db' : Db)
      → Follows start db'.payments
      → Leads start (block_log id tenant action actor object (o, db'))
  unfolding find_payment
  block_log-Leads start action actor object (some p) db' k = k
  block_log-Leads start action actor object none db' k =
      elim (Option-cases (find_row id tenant db'.payments)) [
        | inl e ↦ rw (e, Leads, find_payment) tt
        | inr (p, e) ↦ rw (e, Leads, find_payment) k
      ]

  block_tx-Leads :
      (from : Status) (action : Action) (actor object : ℕ)
      → Leads db.payments (block_tx id tenant from action actor object db)
  unfolding block_tx
  block_tx-Leads from action actor object =
      >>=-Leads db.payments (transition_in_tx id tenant from blocked db)
        (block_log id tenant action actor object) (transition_in_tx-Leads from blocked)
        (block_log-Leads db.payments action actor object)

  execute_tx-Leads : (now object : ℕ) → Leads db.payments (execute_tx id tenant now object db)
  unfolding execute_tx
  execute_tx-Leads now object =
      >>=-Leads db.payments (transition_in_tx id tenant approved executing db)
        (enqueue_log id tenant now object) (transition_in_tx-Leads approved executing)
        (λ o db' k. elim o as (λ q. Leads db.payments (enqueue_log id tenant now object (q, db'))) [
          | none ↦ tt
          | some p ↦ k
        ])

  cancel_tx-Leads : (display : ℕ) → Leads db.payments (cancel_tx id tenant display db)
  unfolding cancel_tx
  cancel_tx-Leads display = elim (Option-cases (find_row id tenant db.payments)) [
    | inl e ↦ rw (e, Leads, cancel_tx) tt
    | inr (p, e) ↦ elim (Bool-cases (is_cancellable p.status)) [
      | inr late ↦ rw (e, Leads, cancel_tx, late) (Follows-refl db.payments)
      | inl early ↦
          rw (e, Leads, cancel_tx, early)
            (>>=-Leads db.payments
              (update_payment id tenant (λ q. record q { status = cancelled }) db)
              (audit_cancel id tenant display) (status-Leads cancelled)
              (λ o db' k.
                elim o as (λ q. Leads db.payments (audit_cancel id tenant display (q, db'))) [
                  | none ↦ tt
                  | some q ↦ k
                ]))
    ]
  ]

  guarded_update-Leads :
      (from to : Status) → Leads db.payments (guarded_update id tenant from to db)
  unfolding guarded_update
  guarded_update-Leads from to = elim (Option-cases (find_row id tenant db.payments)) [
    | inl e ↦ rw (e, Leads, guarded_update) (Follows-refl db.payments)
    | inr (p, e) ↦ elim (Bool-cases (status_eq p.status from)) [
      | inr moved ↦ rw (e, Leads, guarded_update, moved) (Follows-refl db.payments)
      | inl here ↦
          rw (e, Leads, guarded_update, here)
            (>>=-Leads db.payments (update_payment id tenant (λ q. record q { status = to }) db)
              without_row (status-Leads to) (λ o db' k. k))
    ]
  ]

  record_approval-Leads :
      (approver display : ℕ) (current : Payment)
      → Leads db.payments (record_approval id tenant approver display current db)
  unfolding record_approval
  record_approval-Leads approver display current =
      let approvals = new_approval id tenant approver ∷ db.approvals in
      let patch = approval_patch (count_approvers id approvals) current.required_approvals in
      elim (Bool-cases (has_approval id approver db.approvals)) [
        | inl again ↦ rw again tt
        | inr new ↦ rw new (
            >>=-Leads db.payments
              (update_payment id tenant patch (record db { approvals = approvals }))
              (audit_approval id tenant display)
              (update_payment-Leads id tenant patch (record db { approvals = approvals })
                (λ p. (refl, refl)) (λ p. ground arith))
              (λ o db' k.
                elim o as (λ q. Leads db.payments (audit_approval id tenant display (q, db'))) [
                  | none ↦ tt
                  | some q ↦ k
                ]))
      ]

  approve_tx-Leads :
      (approver display : ℕ) → Leads db.payments (approve_tx id tenant approver display db)
  unfolding approve_tx
  approve_tx-Leads approver display = elim (Option-cases (find_row id tenant db.payments)) [
    | inl e ↦ rw (e, Leads, approve_tx) tt
    | inr (p, e) ↦ elim (Bool-cases (status_eq p.status pending_approval)) [
      | inr moved ↦ rw (e, Leads, approve_tx, moved) (Follows-refl db.payments)
      | inl here ↦ rw (e, Leads, approve_tx, here) (record_approval-Leads approver display p)
    ]
  ]

  abbrev From : Db → Type 0
  From db' = Follows db.payments db'.payments

  pub approve_payment-Follows :
      (ctx : ApprovalContext) (user : Option User) (seen : Db)
      → Follows db.payments (approve_payment ctx id tenant user seen db).1.payments
  approve_payment-Follows ctx user seen =
      approve_payment-preserves From id tenant db (Follows-refl db.payments) ctx user seen
        (λ display object.
          with_transaction-Follows
            (block_tx id tenant pending_approval payment_blocked display object) db
            (block_tx-Leads pending_approval payment_blocked display object))
        (with_transaction-Follows (approve_tx id tenant (approver_of user) (display_of user)) db
          (approve_tx-Leads (approver_of user) (display_of user)))

  pub execute_payment-Follows :
      (evaluation : Outcome Error Decision) (now : ℕ) (seen : Db)
      → Follows db.payments (execute_payment evaluation id tenant now seen db).1.payments
  execute_payment-Follows evaluation now seen =
      execute_payment-preserves From id tenant db (Follows-refl db.payments) evaluation now seen
        (λ object.
          with_transaction-Follows
            (block_tx id tenant approved execution_blocked policy_auto_id object) db
            (block_tx-Leads approved execution_blocked policy_auto_id object))
        (λ object.
          with_transaction-Follows (execute_tx id tenant now object) db
            (execute_tx-Leads now object))

  pub cancel_payment-Follows :
      (user : Option User) (seen : Db)
      → Follows db.payments (cancel_payment id tenant user seen db).1.payments
  cancel_payment-Follows user seen =
      cancel_payment-preserves From id tenant db (Follows-refl db.payments) user seen (
        with_transaction-Follows (cancel_tx id tenant (display_of user)) db
          (cancel_tx-Leads (display_of user)))

  pub retry_execution-Follows :
      (now : ℕ) (seen : Db) → Follows db.payments (retry_execution id tenant now seen db).1.payments
  retry_execution-Follows now seen =
      retry_execution-preserves From id tenant db (Follows-refl db.payments) now seen (λ db' k. k)
        (with_transaction-Follows (guarded_update id tenant failed executing) db
          (guarded_update-Leads failed executing))

  pub persist_refs-Follows :
      (provider chain : Option ℕ)
      → Follows db.payments (persist_refs id tenant provider chain db).1.payments
  unfolding persist_refs
  persist_refs-Follows provider chain =
      with_transaction-Follows (update_payment id tenant (with_refs provider chain)) db (
        update_payment-Leads id tenant (with_refs provider chain) db (λ p. (refl, refl))
          (λ p. ground arith))

  pub fail_payment-Follows : Follows db.payments (fail_payment id tenant db).1.payments
  unfolding fail_payment
  fail_payment-Follows =
      with_transaction-Follows (guarded_update id tenant executing failed) db
        (guarded_update-Leads executing failed)

  pub settle_payment-Follows :
      (at : ℕ) → Follows db.payments (settle_payment id tenant at db).1.payments
  unfolding settle_payment
  settle_payment-Follows at =
      with_transaction-Follows (update_payment id tenant (as_settled at)) db
        (update_payment-Leads id tenant (as_settled at) db (λ p. (refl, refl)) (λ p. ground arith))
