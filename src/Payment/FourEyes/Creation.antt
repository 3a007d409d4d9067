-- ===== src/Payment/FourEyes/Creation.antt =====
-- Creation and expiry keep the four-eyes invariant.
use stablecoin_treasury.Prelude.{
  ℕ, ◌+◌, ◌≡◌, refl, sym, ◌∙◌, inl, inr, true, false, Option, none, some, List, [], ◌∷◌, ◌==◌,
  ==_refl, arith, All, Bool-cases, map,
}
use stablecoin_treasury.Payment.Types.{
  Payment, Approval, Db, Decision, clear, review, block, policy_auto_id,
}
use stablecoin_treasury.Payment.Rows.{has_id, UniqueIds, All-fresh}
use stablecoin_treasury.Payment.Approve.{new_approval, count_approvers}
use stablecoin_treasury.Payment.Create.{
  create_tx, insert_payment, auto_approve, with_one_approval, auto_approvals, is_auto_approved,
  creation_status, create_finish, shaped_payment,
}
use stablecoin_treasury.Payment.Keys.{complete_idempotency_key}
use stablecoin_treasury.Payment.Execute.{expire_stale_payments, expire_row, is_stale}
use stablecoin_treasury.Payment.FourEyes.Counts.{
  Inv, Keeps, HasApprovals, IsCounted, is_released, mentions, mentions-insert,
  count_approvers-unmentioned, has_approval-unmentioned, count_approvers-insert_self,
  count_approvers-insert_ne,
}

insert-HasApprovals :
    (q : Payment) (ps : List Payment) (before after : List Approval)
    → HasApprovals ps before
    → has_id q.id ps ≡ false
    → ((j : ℕ) → (j == q.id) ≡ false → count_approvers j after ≡ count_approvers j before)
    → ((j : ℕ) → (q.id == j) ≡ false → mentions j before ≡ false → mentions j after ≡ false)
    → IsCounted after q
    → HasApprovals (q ∷ ps) after
insert-HasApprovals q ps before after h fresh others known counted = record {
  unique = (fresh, h.unique);
  counted = (
    counted,
    All-fresh (IsCounted before) (IsCounted after) q.id ps
        (λ r ne c. (c.0 ∙ sym (others r.id ne), c.1)) fresh h.counted,
  );
  known = λ j e. elim (Bool-cases (q.id == j)) [
    | inl same ↦ cc (rw same at e)
    | inr other ↦ known j other (h.known j (rw other at e))
  ];
}

pub with_one_approval-fresh :
    (id tenant : ℕ) (ps : List Payment) → has_id id ps ≡ false → with_one_approval id tenant ps ≡ ps
with_one_approval-fresh id tenant [] f = refl
with_one_approval-fresh id tenant (p ∷ ps) f = ground (arith, with_one_approval-fresh id tenant ps)

-- What the creation leaves of the status and the required approvals.
released-auto :
    (d : Decision) (p : Payment)
    → is_auto_approved d p ≡ false
    → is_released (creation_status d p) ≡ false
released-auto clear p e = ground arith
released-auto review p e = refl
released-auto block p e = refl

auto-required :
    (d : Decision) (p : Payment) → is_auto_approved d p ≡ true → p.required_approvals ≡ 0
auto-required clear p e = ground arith
auto-required review p e = cc
auto-required block p e = cc

module _ (db : Db) (h : Inv db) where
  plain-Inv :
      (p : Payment)
      → has_id p.id db.payments ≡ false
      → p.approvals ≡ 0
      → is_released p.status ≡ false
      → HasApprovals (p ∷ db.payments) db.approvals
  plain-Inv p fresh zero_approvals held =
      insert-HasApprovals p db.payments db.approvals db.approvals h fresh (λ j e. refl) (λ j e k. k)
        (
          zero_approvals ∙ sym (count_approvers-unmentioned p.id db.approvals (h.known p.id fresh)),
          λ rel. cc,
        )

  auto-Inv :
      (p : Payment) (tenant : ℕ)
      → has_id p.id db.payments ≡ false
      → p.approvals ≡ 1
      → p.required_approvals ≡ 0
      → HasApprovals (p ∷ db.payments) (new_approval p.id tenant policy_auto_id ∷ db.approvals)
  auto-Inv p tenant fresh one none_required =
      let silent = h.known p.id fresh in
      let unheard = has_approval-unmentioned p.id policy_auto_id db.approvals silent in
      insert-HasApprovals p db.payments db.approvals _ h fresh
        (count_approvers-insert_ne p.id tenant policy_auto_id db.approvals)
        (mentions-insert p.id tenant policy_auto_id db.approvals)
        (
          omega (
            arith,
            count_approvers-insert_self p.id tenant policy_auto_id db.approvals unheard,
            count_approvers-unmentioned p.id db.approvals silent,
          ),
          λ rel. omega arith,
        )

  auto_approve-Inv :
      (p : Payment)
      → has_id p.id db.payments ≡ false
      → p.required_approvals ≡ 0
      → HasApprovals
          (with_one_approval p.id p.tenant_id (p ∷ db.payments))
          (auto_approvals p.tenant_id p.id db.approvals)
  auto_approve-Inv p fresh none_required =
      let unheard =
        has_approval-unmentioned p.id policy_auto_id db.approvals (h.known p.id fresh) in
      rw
        (
          ==_refl p.id,
          ==_refl p.tenant_id,
          with_one_approval-fresh p.id p.tenant_id db.payments fresh,
          unheard,
        )
        (auto-Inv (record p { approvals = 1 }) p.tenant_id fresh refl none_required)

-- Completing the idempotency key touches neither table.
complete-Inv :
    (key : Option ℕ) (tenant id : ℕ) (db : Db)
    → Inv db
    → Inv (complete_idempotency_key key tenant id db)
unfolding complete_idempotency_key
complete-Inv none tenant id db h = h
complete-Inv (some key) tenant id db h = h

module _ (db : Db) (h : Inv db) (shape : Payment) (zero_approvals : shape.approvals ≡ 0) where
  -- A creation keeps the invariant: an automatic approval counts as one approver, and no
  -- payment starts out released without it.
  pub create_tx-Keeps :
      (d : Decision) (key : Option ℕ) (tenant : ℕ) (by : Option ℕ)
      → Keeps (create_tx shape d key tenant by db)
  unfolding create_tx insert_payment create_finish auto_approve
  create_tx-Keeps d key tenant by = elim (Bool-cases (has_id shape.id db.payments)) [
    | inl taken ↦ rw taken tt
    | inr fresh ↦
        let p = record (shaped_payment shape d tenant by) { reference = db.next_reference } in
        let inserted = record db {
          payments = p ∷ db.payments;
          events =
              record { payment_id = p.id; from_status = none; to_status = p.status } ∷ db.events;
          next_reference = db.next_reference + 1;
        } in
        rw fresh (elim (Bool-cases (is_auto_approved d (shaped_payment shape d tenant by))) [
          | inr plain ↦ rw plain (
              complete-Inv key tenant shape.id inserted
                (plain-Inv db h p fresh zero_approvals (released-auto d _ plain)))
          | inl auto ↦ rw auto (
              complete-Inv key tenant shape.id (auto_approve tenant p inserted).1 (
                auto_approve-Inv db h p fresh
                  (auto-required d (shaped_payment shape d tenant by) auto)))
        ])
  ]

expire_row-has_id :
    (j tenant now : ℕ) (ps : List Payment) → has_id j (map (expire_row tenant now) ps) ≡ has_id j ps
expire_row-has_id j tenant now [] = refl
expire_row-has_id j tenant now (p ∷ ps) = elim (Bool-cases (is_stale tenant now p)) [
  | inl stale ↦ rw stale (rw (expire_row-has_id j tenant now ps))
  | inr fresh ↦ rw fresh (rw (expire_row-has_id j tenant now ps))
]

expire_rows-HasApprovals :
    (tenant now : ℕ) (as' : List Approval) (ps : List Payment)
    → UniqueIds ps × All (IsCounted as') ps
    → UniqueIds (map (expire_row tenant now) ps)
      × All (IsCounted as') (map (expire_row tenant now) ps)
expire_rows-HasApprovals tenant now as' [] h = h
expire_rows-HasApprovals tenant now as' (p ∷ ps) h =
    let rest = expire_rows-HasApprovals tenant now as' ps (h.0.1, h.1.1) in
    let fresh = expire_row-has_id p.id tenant now ps ∙ h.0.0 in
    elim (Bool-cases (is_stale tenant now p)) [
      | inl stale ↦ rw stale ((fresh, rest.0), ((h.1.0.0, λ rel. cc), rest.1))
      | inr kept ↦ rw kept ((fresh, rest.0), (h.1.0, rest.1))
    ]

-- The expiry sweep only cancels, so it keeps the invariant.
pub expire_stale_payments-Inv :
    (tenant now : ℕ) (db : Db) → Inv db → Inv (expire_stale_payments tenant now db)
unfolding expire_stale_payments
expire_stale_payments-Inv tenant now db h =
    let both = expire_rows-HasApprovals tenant now db.approvals db.payments (h.unique, h.counted) in
    record {
      unique = both.0;
      counted = both.1;
      known = λ j e. h.known j (sym (expire_row-has_id j tenant now db.payments) ∙ e);
    }
