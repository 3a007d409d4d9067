-- ===== src/Payment/Lifecycle/Terminal.antt =====
-- Creation and expiry, and what follows for whole runs: ended payments stay as they are, and no
-- payment's terms ever change.
use mathlib.Core.Path.{subst}
use stablecoin_treasury.Prelude.{
  ℕ, ◌+◌, ◌≡◌, refl, ◌∙◌, inl, inr, Bool, true, false, Option, none, some, List, [], ◌∷◌, ◌==◌,
  ==_refl, ap, arith, Bool-cases, Option-cases, map, find, ◌||◌,
}
use stablecoin_treasury.Prelude.Outcome.{Outcome, ok, err}
use stablecoin_treasury.Payment.Types.{
  Status, pending_approval, blocked, cancelled, settled, Payment, Db, Error, status_eq, Decision,
  User,
}
use stablecoin_treasury.Payment.Table.{find_row, is_row, transition_allowed}
use stablecoin_treasury.Payment.Rows.{has_id, find_row-has_id}
use stablecoin_treasury.Payment.Execute.{
  expire_stale_payments, expire_row, is_stale, sweep_idempotency_keys,
}
use stablecoin_treasury.Payment.Create.{
  CreateContext, Input, create_body, create_shaped, shape_payment, create_tx, create_finish,
  insert_payment, auto_approve, is_auto_approved, shaped_payment, creator_of,
}
use stablecoin_treasury.Payment.Keys.{
  complete_idempotency_key, reserve_idempotency_key, release_idempotency_key, is_key,
}
use stablecoin_treasury.Payment.FourEyes.Creation.{with_one_approval-fresh}
use stablecoin_treasury.Payment.System.{
  Step, reserve, create, release, approve, execute, cancel, retry, expire, sweep, refs, fail,
  settle, Reach, here, next,
}
use stablecoin_treasury.Payment.Lifecycle.Moves.{
  SameTerms, Moved, Moved-refl, Follows, Follows-refl, Leads, with_transaction-Follows,
}
use stablecoin_treasury.Payment.Lifecycle.Steps.{
  approve_payment-Follows, execute_payment-Follows, cancel_payment-Follows, retry_execution-Follows,
  persist_refs-Follows, fail_payment-Follows, settle_payment-Follows,
}

-- A row that goes in front of the table, and a recount of its approvals.
insert-Follows :
    (new : Payment) (ps : List Payment) → has_id new.id ps ≡ false → Follows ps (new ∷ ps)
insert-Follows new ps fresh j s p e = elim (Bool-cases (new.id == j)) [
  | inr other ↦ (p, rw other e, Moved-refl p)
  | inl same ↦
      let k : new.id ≡ j = ground arith in
      cc (fresh, ap (λ i. has_id i ps) k, find_row-has_id j s ps e)
]

is_stale-pending :
    (tenant now : ℕ) (p : Payment) → is_stale tenant now p ≡ true → p.status ≡ pending_approval
unfolding is_stale
is_stale-pending tenant now p h = ground arith

expire_row-Moved : (tenant now : ℕ) (p : Payment) → Moved p (expire_row tenant now p)
unfolding transition_allowed
expire_row-Moved tenant now p = elim (Bool-cases (is_stale tenant now p)) [
  | inr kept ↦ rw kept (Moved-refl p)
  | inl stale ↦
      rw stale (record {
        step = ground (arith, is_stale-pending tenant now p stale);
        terms = ground arith;
      })
]

expire_row-is_row :
    (j s tenant now : ℕ) (p : Payment) → is_row j s (expire_row tenant now p) ≡ is_row j s p
expire_row-is_row j s tenant now p = elim (Bool-cases (is_stale tenant now p)) [
  | inr kept ↦ rw kept
  | inl stale ↦ rw stale
]

expire_rows-Follows :
    (tenant now : ℕ) (ps : List Payment) → Follows ps (map (expire_row tenant now) ps)
expire_rows-Follows tenant now [] j s p e = cc
expire_rows-Follows tenant now (r ∷ ps) j s p e = elim (Bool-cases (is_row j s r)) [
  | inl hit ↦
      let same : some r ≡ some p = rw hit at e in
      (
        expire_row tenant now r,
        rw (expire_row-is_row j s tenant now r ∙ hit),
        subst (λ o. Moved o (expire_row tenant now r)) (cc same) (expire_row-Moved tenant now r),
      )
  | inr miss ↦
      let (q, found, moved) = expire_rows-Follows tenant now ps j s p (rw miss at e) in
      (q, rw (expire_row-is_row j s tenant now r ∙ miss) found, moved)
]

expire-Follows :
    (tenant now : ℕ) (db : Db) → Follows db.payments (expire_stale_payments tenant now db).payments
unfolding expire_stale_payments
expire-Follows tenant now db = expire_rows-Follows tenant now db.payments

complete-Follows :
    (key : Option ℕ) (tenant id : ℕ) (start : List Payment) (db : Db)
    → Follows start db.payments
    → Follows start (complete_idempotency_key key tenant id db).payments
unfolding complete_idempotency_key
complete-Follows none tenant id start db h = h
complete-Follows (some key) tenant id start db h = h

module _ (db : Db) where
  create_tx-Leads :
      (shape : Payment) (d : Decision) (key : Option ℕ) (tenant : ℕ) (by : Option ℕ)
      → Leads db.payments (create_tx shape d key tenant by db)
  unfolding create_tx insert_payment create_finish auto_approve
  create_tx-Leads shape d key tenant by = elim (Bool-cases (has_id shape.id db.payments)) [
    | inl taken ↦ rw taken tt
    | inr fresh ↦
        let p = record (shaped_payment shape d tenant by) { reference = db.next_reference } in
        let inserted = record db {
          payments = p ∷ db.payments;
          events =
              record { payment_id = p.id; from_status = none; to_status = p.status } ∷ db.events;
          next_reference = db.next_reference + 1;
        } in
        rw fresh (elim (Bool-cases (is_auto_approved d (shaped_payment shape d tenant by))) [
          | inr plain ↦ rw plain (
              complete-Follows key tenant shape.id db.payments inserted
                (insert-Follows p db.payments fresh))
          | inl auto ↦ rw auto (
              complete-Follows key tenant shape.id db.payments (auto_approve tenant p inserted).1 (
                rw
                  (
                    ==_refl shape.id,
                    ==_refl tenant,
                    with_one_approval-fresh shape.id tenant db.payments fresh,
                  )
                  (insert-Follows (record p { approvals = 1 }) db.payments fresh)))
        ])
  ]

  create_shaped-Follows :
      (key : Option ℕ) (tenant : ℕ) (user : Option User) (r : Outcome Error (Payment × Decision))
      → Follows db.payments (create_shaped key tenant user db r).1.payments
  unfolding create_shaped
  create_shaped-Follows key tenant user (err e) = Follows-refl db.payments
  create_shaped-Follows key tenant user (ok (shape, d)) =
      with_transaction-Follows (create_tx shape d key tenant (creator_of user)) db
        (create_tx-Leads shape d key tenant (creator_of user))

  create_body-Follows :
      (ctx : CreateContext) (input : Input) (key : Option ℕ) (tenant : ℕ) (user : Option User)
      → Follows db.payments (create_body ctx input key tenant user db).1.payments
  unfolding create_body
  create_body-Follows ctx input key tenant user =
      create_shaped-Follows key tenant user (shape_payment ctx input)

  reserve-Follows :
      (key hash tenant now : ℕ)
      → Follows db.payments (reserve_idempotency_key key hash tenant now db).1.payments
  unfolding reserve_idempotency_key
  reserve-Follows key hash tenant now = elim (Option-cases (find (is_key key tenant) db.keys)) [
    | inl e ↦ rw (e, reserve_idempotency_key) (Follows-refl db.payments)
    | inr (k, e) ↦ rw (e, reserve_idempotency_key) (Follows-refl db.payments)
  ]

  release-Follows :
      (key : Option ℕ) (tenant : ℕ)
      → Follows db.payments (release_idempotency_key key tenant db).payments
  unfolding release_idempotency_key
  release-Follows none tenant = Follows-refl db.payments
  release-Follows (some key) tenant = Follows-refl db.payments

-- Every step leaves each payment of the table in it, at the same status or at one that the
-- transition graph allows from it, with the same money, parties, required approvals and creator.
pub Step-Follows : {db db' : Db} → Step db db' → Follows db.payments db'.payments
Step-Follows {db} (reserve key hash tenant now) = reserve-Follows db key hash tenant now
Step-Follows {db} (create ctx input key tenant user) =
    create_body-Follows db ctx input key tenant user
Step-Follows {db} (release key tenant) = release-Follows db key tenant
Step-Follows {db} (approve ctx id tenant user seen) =
    approve_payment-Follows id tenant db ctx user seen
Step-Follows {db} (execute evaluation id tenant now seen) =
    execute_payment-Follows id tenant db evaluation now seen
Step-Follows {db} (cancel id tenant user seen) = cancel_payment-Follows id tenant db user seen
Step-Follows {db} (retry id tenant now seen) = retry_execution-Follows id tenant db now seen
Step-Follows {db} (expire tenant now) = expire-Follows tenant now db
Step-Follows {db} (sweep now) = unfold sweep_idempotency_keys in Follows-refl db.payments
Step-Follows {db} (refs id tenant provider chain) = persist_refs-Follows id tenant db provider chain
Step-Follows {db} (fail id tenant) = fail_payment-Follows id tenant db
Step-Follows {db} (settle id tenant at) = settle_payment-Follows id tenant db at

abbrev pub is_ended : Status → Bool
is_ended s = status_eq s settled || (status_eq s blocked || status_eq s cancelled)

-- What a payment is later, seen from what it was: the same terms, and the same status if that
-- had ended it.
pub record Later (p q : Payment) : Type 0 where
  pub terms : SameTerms p q
  pub ended : is_ended p.status ≡ true → q.status ≡ p.status

Moved-Later : (p q r : Payment) → Later p q → Moved q r → Later p r
unfolding transition_allowed
Moved-Later p q r l m = record {
  terms = ground (arith, l.terms, m.terms);
  ended = λ e. ground (arith, l.ended e, m.step);
}

-- Along any run of the system a payment stays in the table with the terms it was created with,
-- and once it is Settled, Blocked or Cancelled its status never changes again.
pub ended_for_good :
    {start db : Db} (id tenant : ℕ) (p : Payment)
    → Reach start db
    → find_row id tenant start.payments ≡ some p
    → (q : Payment) × (find_row id tenant db.payments ≡ some q) × Later p q
ended_for_good id tenant p here e =
    (p, e, record { terms = (Moved-refl p).terms; ended = λ x. refl })
ended_for_good id tenant p (next r s) e =
    let (q, found, later) = ended_for_good id tenant p r e in
    let (q', found', moved) = Step-Follows s id tenant q found in
    (q', found', Moved-Later p q q' later moved)
