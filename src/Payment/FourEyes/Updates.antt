-- ===== src/Payment/FourEyes/Updates.antt =====
-- The invariant under each statement: a status change, a recorded approval, an insertion.
use stablecoin_treasury.Prelude.{
  ℕ, ◌≡◌, refl, inl, inr, true, false, some, List, ◌∷◌, ◌==◌, arith, find-All, Bool-cases,
  Option-cases, ap, sym, ◌∙◌,
}
use stablecoin_treasury.Payment.Types.{Status, pending_approval, status_eq, Payment, Approval, Db}
use stablecoin_treasury.Payment.Table.{find_row, is_row, write_row, update_payment}
use stablecoin_treasury.Payment.Updated.{
  is_step, status_eq→≡, update_payment-Updated, missing, refused, written,
}
use stablecoin_treasury.Payment.Rows.{
  has_id, has_id-write_row, write_row-UniqueIds, write_row-All, find_row-id, find_row-has_id,
  ne_of_has_id,
}
use stablecoin_treasury.Payment.Approve.{
  has_approval, count_approvers, transition_in_tx, record_approval, new_approval, approval_patch,
  approve_tx,
}
use stablecoin_treasury.Payment.FourEyes.Counts.{
  is_released, IsCounted, mentions, HasApprovals, Inv, Keeps, count_approvers-insert_ne,
  mentions-insert,
}

-- One row is replaced, and the approvals change for its payment at most.
pub write_row-HasApprovals :
    (id tenant : ℕ) (old new : Payment) (ps : List Payment) (before after : List Approval)
    → HasApprovals ps before
    → find_row id tenant ps ≡ some old
    → new.id ≡ id
    → ((j : ℕ) → (j == id) ≡ false → count_approvers j after ≡ count_approvers j before)
    → ((j : ℕ) → has_id j ps ≡ false → mentions j after ≡ false)
    → IsCounted after new
    → HasApprovals (write_row id tenant new ps) after
write_row-HasApprovals id tenant old new ps before after h found same others known counted =
    record {
      unique = write_row-UniqueIds id tenant new ps same h.unique;
      counted =
          write_row-All (IsCounted before) (IsCounted after) id tenant new ps
            (λ q ne c. (c.0 ∙ sym (others q.id ne), c.1)) found h.unique counted h.counted;
      known = λ j e. known j (sym (has_id-write_row j id tenant new ps same) ∙ e);
    }

module _ (id tenant : ℕ) (db : Db) (h : Inv db) where
  found-IsCounted :
      (old : Payment) → find_row id tenant db.payments ≡ some old → IsCounted db.approvals old
  found-IsCounted old e =
      find-All (IsCounted db.approvals) (is_row id tenant) db.payments h.counted e

  -- A patch that leaves id and counts alone keeps the invariant if it releases no payment.
  pub update_patch-Keeps :
      (patch : Payment → Payment)
      → ((p : Payment)
          → ((patch p).id ≡ p.id)
            × ((patch p).approvals ≡ p.approvals)
            × ((patch p).required_approvals ≡ p.required_approvals))
      → ((old : Payment)
          → find_row id tenant db.payments ≡ some old
          → is_step old.status (patch old).status ≡ true
          → is_released (patch old).status ≡ true
          → is_released old.status ≡ true)
      → Keeps (update_payment id tenant patch db)
  update_patch-Keeps patch same release = elim (update_payment-Updated id tenant patch db) [
    | missing e r ↦ rw r h
    | refused old e no_step r ↦ rw r tt
    | written old logged e step trig r ↦ rw r (
        let (same_id, same_count, same_required) = same old in
        let c = found-IsCounted old e in
        write_row-HasApprovals id tenant old (patch old) db.payments db.approvals db.approvals h e
          (same_id ∙ find_row-id id tenant db.payments e) (λ j ne. refl) h.known
          (
            same_count ∙ c.0 ∙ ap (λ k. count_approvers k db.approvals) (sym same_id),
            λ rel. rw (same_required, same_count) (c.1 (release old e step rel)),
          ))
  ]

  -- A status change of one row.
  pub update_status-Keeps :
      (s : Status)
      → ((old : Payment)
          → find_row id tenant db.payments ≡ some old
          → is_step old.status s ≡ true
          → is_released s ≡ true
          → is_released old.status ≡ true)
      → Keeps (update_payment id tenant (λ q. record q { status = s }) db)
  update_status-Keeps s release =
      update_patch-Keeps (λ q. record q { status = s }) (λ p. (refl, refl, refl)) release

  pub transition_in_tx-Keeps :
      (from to : Status)
      → (is_released to ≡ true → is_released from ≡ true)
      → Keeps (transition_in_tx id tenant from to db)
  unfolding transition_in_tx
  transition_in_tx-Keeps from to release = elim (Option-cases (find_row id tenant db.payments)) [
    | inl e ↦ rw (e, Keeps, transition_in_tx) h
    | inr (p, e) ↦ elim (Bool-cases (status_eq p.status from)) [
      | inr moved ↦ rw (e, Keeps, transition_in_tx, moved) h
      | inl here ↦
          rw (e, Keeps, transition_in_tx, here)
            (update_status-Keeps to
              (λ old found step rel. ground (arith, status_eq→≡ p.status from here, release rel)))
    ]
  ]

  -- A recorded approval is counted, and releases the payment only at the required number.
  patch-IsCounted :
      (approvals : List Approval) (current old : Payment)
      → find_row id tenant db.payments ≡ some current
      → find_row id tenant db.payments ≡ some old
      → IsCounted approvals
          (approval_patch (count_approvers id approvals) current.required_approvals old)
  patch-IsCounted approvals current old found e = (
    ap (λ k. count_approvers k approvals) (sym (find_row-id id tenant db.payments e)),
    λ rel. ground arith,
  )

  record_approval-Keeps :
      (approver display : ℕ) (current : Payment)
      → find_row id tenant db.payments ≡ some current
      → Keeps (record_approval id tenant approver display current db)
  unfolding record_approval
  record_approval-Keeps approver display current found =
      elim (Bool-cases (has_approval id approver db.approvals)) [
        | inl again ↦ rw again tt
        | inr new ↦ rw new (
            let approvals = new_approval id tenant approver ∷ db.approvals in
            let patch = approval_patch (count_approvers id approvals) current.required_approvals in
            elim (update_payment-Updated id tenant patch (record db { approvals = approvals })) [
              | missing e r ↦ rw (r, Keeps) tt
              | refused old e no_step r ↦ rw r tt
              | written old logged e step trig r ↦ rw r (
                  write_row-HasApprovals id tenant old (patch old) db.payments db.approvals
                    approvals h e (find_row-id id tenant db.payments e)
                    (count_approvers-insert_ne id tenant approver db.approvals)
                    (λ j unknown.
                      mentions-insert id tenant approver db.approvals j
                        (ne_of_has_id j id db.payments unknown
                          (find_row-has_id id tenant db.payments e))
                        (h.known j unknown))
                    (patch-IsCounted approvals current old found e))
            ])
      ]

  pub approve_tx-Keeps : (approver display : ℕ) → Keeps (approve_tx id tenant approver display db)
  unfolding approve_tx
  approve_tx-Keeps approver display = elim (Option-cases (find_row id tenant db.payments)) [
    | inl e ↦ rw (e, Keeps, approve_tx) tt
    | inr (p, e) ↦ elim (Bool-cases (status_eq p.status pending_approval)) [
      | inr moved ↦ rw (e, Keeps, approve_tx, moved) h
      | inl here ↦ rw (e, Keeps, approve_tx, here) (record_approval-Keeps approver display p e)
    ]
  ]
