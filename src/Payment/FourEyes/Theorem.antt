-- ===== src/Payment/FourEyes/Theorem.antt =====
-- The four-eyes theorem over all interleavings of the handlers' transactions.
use stablecoin_treasury.Prelude.{
  ℕ, ◌≤◌, ◌≡◌, refl, ap, inl, inr, true, Option, none, some, arith, find-All, find, Option-cases,
}
use stablecoin_treasury.Prelude.Outcome.{Outcome, ok, err}
use stablecoin_treasury.Payment.Types.{
  Status, settled, executing, failed, Payment, Db, User, Error, Decision,
}
use stablecoin_treasury.Payment.Table.{find_row, is_row, transition_allowed, update_payment}
use stablecoin_treasury.Payment.Rows.{find_row-id}
use stablecoin_treasury.Payment.Updated.{is_step}
use stablecoin_treasury.Payment.Approve.{count_approvers}
use stablecoin_treasury.Payment.Execute.{guarded_update, sweep_idempotency_keys}
use stablecoin_treasury.Payment.Create.{
  CreateContext, Input, create_body, create_shaped, shape_payment, create_tx, creator_of,
  build_payment_shape,
}
use stablecoin_treasury.Payment.Keys.{is_key, reserve_idempotency_key, release_idempotency_key}
use stablecoin_treasury.Payment.Settlement.{
  persist_refs, with_refs, fail_payment, settle_payment, as_settled,
}
use stablecoin_treasury.Payment.System.{
  Step, reserve, create, release, approve, execute, cancel, retry, expire, sweep, refs, fail,
  settle, Reach, here, next, empty_db,
}
use stablecoin_treasury.Payment.FourEyes.Counts.{Inv, IsCounted, is_released, with_transaction-Inv}
use stablecoin_treasury.Payment.FourEyes.Updates.{update_patch-Keeps}
use stablecoin_treasury.Payment.FourEyes.Handlers.{
  guarded_update-Keeps, approve_payment-Inv, execute_payment-Inv, cancel_payment-Inv,
  retry_execution-Inv,
}
use stablecoin_treasury.Payment.FourEyes.Creation.{create_tx-Keeps, expire_stale_payments-Inv}

-- A new shape has no approvals.
abbrev Unapproved : Outcome Error (Payment × Decision) → Type 0
Unapproved (ok (shape, _)) = shape.approvals ≡ 0
Unapproved (err _) = Unit

shape_payment-Unapproved :
    (ctx : CreateContext) (input : Input) → Unapproved (shape_payment ctx input)
unfolding shape_payment build_payment_shape
shape_payment-Unapproved ctx input = ground arith

-- The trigger lets a payment become Settled only from Executing.
settled_from : (old : Status) → is_step old settled ≡ true → is_released old ≡ true
unfolding transition_allowed
settled_from old step = ground arith

module _ (db : Db) (h : Inv db) where
  reserve-Inv : (key hash tenant now : ℕ) → Inv (reserve_idempotency_key key hash tenant now db).1
  unfolding reserve_idempotency_key
  reserve-Inv key hash tenant now = elim (Option-cases (find (is_key key tenant) db.keys)) [
    | inl e ↦ rw (e, Inv, reserve_idempotency_key) h
    | inr (k, e) ↦ rw (e, Inv, reserve_idempotency_key) h
  ]

  release-Inv : (key : Option ℕ) (tenant : ℕ) → Inv (release_idempotency_key key tenant db)
  unfolding release_idempotency_key
  release-Inv none tenant = h
  release-Inv (some key) tenant = h

  create_shaped-Inv :
      (key : Option ℕ) (tenant : ℕ) (user : Option User) (r : Outcome Error (Payment × Decision))
      → Unapproved r
      → Inv (create_shaped key tenant user db r).1
  unfolding create_shaped
  create_shaped-Inv key tenant user (err e) u = h
  create_shaped-Inv key tenant user (ok (shape, d)) u =
      with_transaction-Inv (create_tx shape d key tenant (creator_of user)) db h
        (create_tx-Keeps db h shape u d key tenant (creator_of user))

  create_body-Inv :
      (ctx : CreateContext) (input : Input) (key : Option ℕ) (tenant : ℕ) (user : Option User)
      → Inv (create_body ctx input key tenant user db).1
  unfolding create_body
  create_body-Inv ctx input key tenant user =
      create_shaped-Inv key tenant user (shape_payment ctx input)
        (shape_payment-Unapproved ctx input)

  refs-Inv :
      (id tenant : ℕ) (provider chain : Option ℕ) → Inv (persist_refs id tenant provider chain db).1
  unfolding persist_refs
  refs-Inv id tenant provider chain =
      with_transaction-Inv (update_payment id tenant (with_refs provider chain)) db h (
        update_patch-Keeps id tenant db h (with_refs provider chain) (λ p. (refl, refl, refl))
          (λ old e step rel. rel))

  fail-Inv : (id tenant : ℕ) → Inv (fail_payment id tenant db).1
  unfolding fail_payment
  fail-Inv id tenant =
      with_transaction-Inv (guarded_update id tenant executing failed) db h
        (guarded_update-Keeps id tenant db h executing failed (λ _. refl))

  settle-Inv : (id tenant at : ℕ) → Inv (settle_payment id tenant at db).1
  unfolding settle_payment
  settle-Inv id tenant at = with_transaction-Inv (update_payment id tenant (as_settled at)) db h (
      update_patch-Keeps id tenant db h (as_settled at) (λ p. (refl, refl, refl))
        (λ old e step rel. settled_from old.status step))

Step-Inv : {db db' : Db} → Step db db' → Inv db → Inv db'
Step-Inv (reserve key hash tenant now) h = reserve-Inv _ h key hash tenant now
Step-Inv (create ctx input key tenant user) h = create_body-Inv _ h ctx input key tenant user
Step-Inv (release key tenant) h = release-Inv _ h key tenant
Step-Inv (approve ctx id tenant user seen) h = approve_payment-Inv id tenant _ h ctx user seen
Step-Inv (execute evaluation id tenant now seen) h =
    execute_payment-Inv id tenant _ h evaluation now seen
Step-Inv (cancel id tenant user seen) h = cancel_payment-Inv id tenant _ h user seen
Step-Inv (retry id tenant now seen) h = retry_execution-Inv id tenant _ h now seen
Step-Inv (expire tenant now) h = expire_stale_payments-Inv tenant now _ h
Step-Inv (sweep now) h = unfold sweep_idempotency_keys in h
Step-Inv (refs id tenant provider chain) h = refs-Inv _ h id tenant provider chain
Step-Inv (fail id tenant) h = fail-Inv _ h id tenant
Step-Inv (settle id tenant at) h = settle-Inv _ h id tenant at

pub Reach-Inv : {db : Db} → Reach empty_db db → Inv db
Reach-Inv here = record { unique = tt; counted = tt; known = λ id e. refl }
Reach-Inv (next r s) = Step-Inv s (Reach-Inv r)

-- In every reachable state, a payment that is Approved, Executing, Settled or Failed has
-- at least the number of distinct recorded approvers that its policy required when it was
-- created.
pub released_needs_approvers :
    {db : Db} (id tenant : ℕ) {p : Payment}
    → Reach empty_db db
    → find_row id tenant db.payments ≡ some p
    → is_released p.status ≡ true
    → p.required_approvals ≤ count_approvers id db.approvals
released_needs_approvers {db} id tenant {p} r found rel =
    let h = Reach-Inv r in
    let c = find-All (IsCounted db.approvals) (is_row id tenant) db.payments h.counted found in
    let e = ap (λ k. count_approvers k db.approvals) (find_row-id id tenant db.payments found) in
    omega (arith, c.0, c.1 rel, e)
