-- ===== src/Payment/SelfApproval.antt =====
-- The creator of a payment cannot approve it.
use stablecoin_treasury.Prelude.{
  ℕ, ◌≡◌, refl, true, false, Option, none, some, List, inl, inr, arith, Bool-cases, Option-cases,
}
use stablecoin_treasury.Prelude.Outcome.{Outcome, ok, err, Outcome-cases}
use stablecoin_treasury.Platform.Events.{Action, payment_blocked}
use stablecoin_treasury.Payment.Types.{
  pending_approval, blocked, Status, status_eq, Payment, Approval, Db, Error, Decision, clear,
  review, block, User,
}
use stablecoin_treasury.Payment.Table.{find_row, find_payment, with_transaction}
use stablecoin_treasury.Payment.Updated.{missing, refused, written, update_payment-Updated}
use stablecoin_treasury.Payment.Approve.{
  ApprovalContext, approve_payment, approve_decided, approve_found, block_tx, log_audit, block_log,
  transition_in_tx, self_forbidden, policy_missing,
}

-- The approvals of what a transaction comes to.
abbrev approvals_of : Db → Outcome Error (Payment × Db) → List Approval
approvals_of db (ok (_, db')) = db'.approvals
approvals_of db (err _) = db.approvals

with_transaction-approvals :
    (f : Db → Outcome Error (Payment × Db)) (db : Db)
    → approvals_of db (f db) ≡ db.approvals
    → (with_transaction f db).1.approvals ≡ db.approvals
with_transaction-approvals f db h = elim (Outcome-cases (f db)) [
  | inl ((p, db'), e) ↦ rw (e, with_transaction) (rw e at h)
  | inr (x, e) ↦ rw (e, with_transaction) refl
]

block_log-approvals :
    (id tenant : ℕ) (action : Action) (actor object : ℕ) (o : Option Payment) (db db' : Db)
    → db'.approvals ≡ db.approvals
    → approvals_of db (block_log id tenant action actor object (o, db')) ≡ db.approvals
block_log-approvals id tenant action actor object (some p) db db' h = h
block_log-approvals id tenant action actor object none db db' h =
    elim (Outcome-cases (find_payment id tenant (log_audit tenant id action actor object db'))) [
      | inl (p, e) ↦ rw e h
      | inr (x, e) ↦ rw e refl
    ]

block_tx-approvals :
    (id tenant : ℕ) (from : Status) (action : Action) (actor object : ℕ) (db : Db)
    → approvals_of db (block_tx id tenant from action actor object db) ≡ db.approvals
unfolding block_tx transition_in_tx
block_tx-approvals id tenant from action actor object db =
    elim (Option-cases (find_row id tenant db.payments)) [
      | inl e ↦
          rw (e, transition_in_tx)
            (block_log-approvals id tenant action actor object none db db refl)
      | inr (p, e) ↦ elim (Bool-cases (status_eq p.status from)) [
        | inr moved ↦
            rw (e, transition_in_tx, moved)
              (block_log-approvals id tenant action actor object none db db refl)
        | inl here ↦
            elim (update_payment-Updated id tenant (λ q. record q { status = blocked }) db) [
              | missing _ r ↦
                  rw (e, transition_in_tx, here, r)
                    (block_log-approvals id tenant action actor object none db _ refl)
              | refused _ _ _ r ↦ rw (e, transition_in_tx, here, r) refl
              | written old logged _ _ _ r ↦ rw (e, transition_in_tx, here, r) refl
            ]
      ]
    ]

decided-approvals :
    (ctx : ApprovalContext) (id tenant : ℕ) (user : User) (p : Payment) (db : Db)
    (d : Outcome Error Decision)
    → p.created_by ≡ some user.id
    → ctx.auth_required ≡ true
    → ctx.self_approval_allowed ≡ false
    → (approve_decided ctx id tenant (some user) p db d).1.approvals ≡ db.approvals
unfolding approve_decided self_forbidden policy_missing
decided-approvals ctx id tenant user p db (err e) own auth strict = refl
decided-approvals ctx id tenant user p db (ok block) own auth strict =
    with_transaction-approvals
      (block_tx id tenant pending_approval payment_blocked user.display p.reference) db
      (block_tx-approvals id tenant pending_approval payment_blocked user.display p.reference db)
decided-approvals ctx id tenant user p db (ok review) own auth strict = refl
decided-approvals ctx id tenant user p db (ok clear) own auth strict = ground arith

-- Where authentication is required and the policy does not allow self-approval, a request of a
-- payment's creator to approve it records no approval, whatever the policy engine answers and
-- whatever other transactions did since the handler's first read, which found the payment.
pub creator_never_approves :
    (ctx : ApprovalContext) (id tenant : ℕ) (user : User) (p : Payment) (seen db : Db)
    → find_row id tenant seen.payments ≡ some p
    → p.created_by ≡ some user.id
    → ctx.auth_required ≡ true
    → ctx.self_approval_allowed ≡ false
    → (approve_payment ctx id tenant (some user) seen db).1.approvals ≡ db.approvals
unfolding approve_payment approve_found find_payment
creator_never_approves ctx id tenant user p seen db found own auth strict =
    let decided = decided-approvals ctx id tenant user p db ctx.evaluation own auth strict in
    rw (found, find_payment) (ground (arith, decided))
