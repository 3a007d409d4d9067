-- ===== src/Payment/Approve.antt =====
-- `approvePayment` (services/payment-service/src/payments.mjs). A handler reads the payment
-- first (`seen`) and writes in a transaction on a database that may have moved on (`db`).
use stablecoin_treasury.Prelude.{
  ℕ, suc, Bool, false, not, ◌&&◌, Option, none, some, List, [], ◌∷◌, ◌==◌, leb, if◌then◌else◌, any,
}
use stablecoin_treasury.Prelude.Outcome.{Outcome, ok, err, ◌>>=◌}
use stablecoin_treasury.Platform.Events.{
  Action, payment_blocked, payment_approved, OutboxEvent, audit_event_recorded,
  append_outbox_events, with_tenant,
}
use stablecoin_treasury.Payment.Types.{
  Status, pending_approval, approved, blocked, executing, settled, status_eq, Payment, Approval, Db,
  Error, invalid_state, review_required, self_approval_forbidden, policy_unavailable,
  already_approved, missing_row, Decision, clear, review, block, User, system_id,
}
use stablecoin_treasury.Payment.Table.{
  find_row, find_payment, update_payment, with_transaction, on_found,
}

-- `auditEvent`
abbrev pub audit_event : ℕ → Action → ℕ → ℕ → OutboxEvent
audit_event payment_id action actor object = record {
  tenant_id = none;
  aggregate_id = payment_id;
  event_type = audit_event_recorded;
  payload = record { actor = actor; action = action; object = object };
}

abbrev pub log_audit : ℕ → ℕ → Action → ℕ → ℕ → Db → Db
log_audit tenant payment_id action actor object db = record db {
  outbox =
      append_outbox_events db.outbox
        (with_tenant tenant (audit_event payment_id action actor object ∷ []));
}

-- `transitionInTx` with a patch of the status alone: `none` where the row is missing or is no
-- longer in `from`.
unfoldable pub transition_in_tx : ℕ → ℕ → Status → Status → Db → Outcome Error (Option Payment × Db)
transition_in_tx id tenant from to db = elim (find_row id tenant db.payments) [
  | none ↦ ok (none, db)
  | some p ↦
      if status_eq p.status from
      then update_payment id tenant (λ q. record q { status = to }) db
      else ok (none, db)
]

-- UNIQUE (payment_id, approver_id)
abbrev pub has_approval : ℕ → ℕ → List Approval → Bool
has_approval id approver = any (λ a. a.payment_id == id && a.approver_id == approver)

-- `SELECT COUNT(DISTINCT approver_id) … WHERE payment_id = $1`
unfoldable pub count_approvers : ℕ → List Approval → ℕ
count_approvers id [] = 0
count_approvers id (a ∷ rest_of) =
    let rest = count_approvers id rest_of in
    if a.payment_id == id && not (has_approval id a.approver_id rest_of) then suc rest else rest

abbrev pub new_approval : ℕ → ℕ → ℕ → Approval
new_approval id tenant approver = record {
  tenant_id = tenant;
  payment_id = id;
  approver_id = approver;
}

-- The approval counts of a row, and the status that follows from them.
abbrev pub approval_patch : ℕ → ℕ → Payment → Payment
approval_patch count required p = record p {
  approvals = count;
  status = if leb required count then approved else pending_approval;
}

abbrev pub audit_approval : ℕ → ℕ → ℕ → Option Payment × Db → Outcome Error (Payment × Db)
audit_approval id tenant display (none, db) = err missing_row
audit_approval id tenant display (some p, db) =
    ok (p, log_audit tenant id payment_approved display p.reference db)

-- The INSERT of an approval, the recount and the UPDATE, for the row `current`.
unfoldable pub record_approval : ℕ → ℕ → ℕ → ℕ → Payment → Db → Outcome Error (Payment × Db)
record_approval id tenant approver display current db =
    if has_approval id approver db.approvals
    then err already_approved
    else let approvals = new_approval id tenant approver ∷ db.approvals in
      let patch = approval_patch (count_approvers id approvals) current.required_approvals in
      (update_payment id tenant patch (record db { approvals = approvals })
        >>= audit_approval id tenant display)

-- The transaction of an approval that passed the checks: the row is read again under a lock.
unfoldable pub approve_tx : ℕ → ℕ → ℕ → ℕ → Db → Outcome Error (Payment × Db)
approve_tx id tenant approver display db = elim (find_row id tenant db.payments) [
  | none ↦ err missing_row
  | some current ↦
      if not (status_eq current.status pending_approval)
      then ok (current, db)
      else record_approval id tenant approver display current db
]

-- `updated || findPayment(id)`, after the audit event.
abbrev pub block_log : ℕ → ℕ → Action → ℕ → ℕ → Option Payment × Db → Outcome Error (Payment × Db)
block_log id tenant action actor object (some p, db) =
    ok (p, log_audit tenant id action actor object db)
block_log id tenant action actor object (none, db) =
    let db' = log_audit tenant id action actor object db in
    find_payment id tenant db' >>= λ p. ok (p, db')

-- The transaction that a Blocked evaluation runs in place of the approval (and, from
-- Approved, of the execution).
unfoldable pub block_tx : ℕ → ℕ → Status → Action → ℕ → ℕ → Db → Outcome Error (Payment × Db)
block_tx id tenant from action actor object db =
    transition_in_tx id tenant from blocked db >>= block_log id tenant action actor object

-- What an approval depends on beside the database: the policy service's evaluation, whether
-- AUTH_REQUIRED is "true", whether the policy can be fetched, and its `selfApprovalAllowed`.
pub record ApprovalContext : Type 0 where
  pub evaluation : Outcome Error Decision
  pub auth_required : Bool
  pub policy_reachable : Bool
  pub self_approval_allowed : Bool

abbrev pub approver_of : Option User → ℕ
approver_of none = system_id
approver_of (some u) = u.id

abbrev pub display_of : Option User → ℕ
display_of none = system_id
display_of (some u) = u.display

-- The creator-cannot-approve check.
unfoldable pub self_forbidden : ApprovalContext → Payment → ℕ → Bool
self_forbidden ctx p approver = elim (p.created_by) [
  | none ↦ false
  | some creator ↦ ctx.auth_required && (creator == approver && not ctx.self_approval_allowed)
]

-- The policy is fetched only for a payment with a creator where authentication is required.
unfoldable pub policy_missing : ApprovalContext → Payment → Bool
policy_missing ctx p = elim (p.created_by) [
  | none ↦ false
  | some creator ↦ ctx.auth_required && not ctx.policy_reachable
]

abbrev pub is_approved_or_later : Status → Bool
is_approved_or_later s = any (status_eq s) (approved ∷ executing ∷ settled ∷ [])

-- The branches on the evaluation of a payment that is pending approval.
unfoldable pub approve_decided :
    ApprovalContext
    → ℕ
    → ℕ
    → Option User
    → Payment
    → Db
    → Outcome Error Decision
    → Outcome Error Payment × Db
approve_decided ctx id tenant user p db (err e) = (err e, db)
approve_decided ctx id tenant user p db (ok block) =
    with_transaction
      (block_tx id tenant pending_approval payment_blocked (display_of user) p.reference) db
approve_decided ctx id tenant user p db (ok review) = (err review_required, db)
approve_decided ctx id tenant user p db (ok clear) =
    if policy_missing ctx p
    then (err policy_unavailable, db)
    else if self_forbidden ctx p (approver_of user)
    then (err self_approval_forbidden, db)
    else with_transaction (approve_tx id tenant (approver_of user) (display_of user)) db

unfoldable pub approve_found :
    ApprovalContext → ℕ → ℕ → Option User → Db → Payment → Outcome Error Payment × Db
approve_found ctx id tenant user db p =
    if is_approved_or_later p.status
    then (ok p, db)
    else if not (status_eq p.status pending_approval)
    then (err invalid_state, db)
    else approve_decided ctx id tenant user p db ctx.evaluation

unfoldable pub approve_payment :
    ApprovalContext → ℕ → ℕ → Option User → Db → Db → Outcome Error Payment × Db
approve_payment ctx id tenant user seen db =
    on_found (find_payment id tenant seen) db (approve_found ctx id tenant user db)
