-- ===== src/Saga/Rows.antt =====
-- What the saga's statements on payment.payments do to the payment's own row.
use stablecoin_treasury.Payment.Rows.{find_row-is_row}
use stablecoin_treasury.Payment.Updated.{update_payment-Updated, missing, refused, written}
use stablecoin_treasury.Payment.Settlement.{
  with_refs, persist_refs, fail_payment, as_settled, settle_payment,
}
use stablecoin_treasury.Payment.Execute.{guarded_update}
use stablecoin_treasury.Prelude.{
  ℕ, ◌≡◌, refl, inl, inr, true, some, List, [], ◌∷◌, Bool-cases, Option, Option-cases,
}
use stablecoin_treasury.Payment.Types.{Payment, failed, Db, executing, status_eq}
use stablecoin_treasury.Payment.Table.{
  find_row, is_row, write_row, update_payment, with_transaction,
}

-- A row that is written is found.
pub find_row-write_row :
    (id tenant : ℕ) (ps : List Payment) (new : Payment) {old : Payment}
    → find_row id tenant ps ≡ some old
    → is_row id tenant new ≡ true
    → find_row id tenant (write_row id tenant new ps) ≡ some new
find_row-write_row id tenant [] new h n = cc
find_row-write_row id tenant (p ∷ ps) new {old} h n = elim (Bool-cases (is_row id tenant p)) [
  | inl mine ↦ rw (mine, n) refl
  | inr other ↦
      rw (other, other) (find_row-write_row id tenant ps new {old = old} (rw other at h) n)
]

-- The status of the payment's row after an update: as before, or the patch's.
pub data NewRow (id tenant : ℕ) (patch : Payment → Payment) (ps ps' : List Payment) : Type 0 where
  untouched : ps' ≡ ps → NewRow id tenant patch ps ps'
  patched :
      (old : Payment)
      → find_row id tenant ps ≡ some old
      → find_row id tenant ps' ≡ some (patch old)
      → NewRow id tenant patch ps ps'

module _ (id tenant : ℕ) (patch : Payment → Payment)
    (keeps : (p : Payment) → is_row id tenant p ≡ true → is_row id tenant (patch p) ≡ true)
    (d : Db) where
  update-NewRow :
      NewRow id tenant patch d.payments
        (with_transaction (update_payment id tenant patch) d).1.payments
  update-NewRow = elim (update_payment-Updated id tenant patch d) [
    | missing _ e ↦ rw (e, with_transaction) (untouched refl)
    | refused _ _ _ e ↦ rw (e, with_transaction) (untouched refl)
    | written old logged found _ _ e ↦
        rw (e, with_transaction)
          (patched old found (
            find_row-write_row id tenant d.payments (patch old) found
              (keeps old (find_row-is_row id tenant d.payments found))))
  ]

abbrev pub as_failed : Payment → Payment
as_failed p = record p { status = failed }

pub fail_payment-NewRow :
    (id tenant : ℕ) (d : Db)
    → NewRow id tenant as_failed d.payments (fail_payment id tenant d).1.payments
unfolding fail_payment guarded_update
fail_payment-NewRow id tenant d = elim (Option-cases (find_row id tenant d.payments)) [
  | inl e ↦ rw (e, with_transaction, guarded_update) (untouched refl)
  | inr (old, e) ↦ elim (Bool-cases (status_eq old.status executing)) [
    | inr moved ↦ rw (e, with_transaction, guarded_update, moved) (untouched refl)
    | inl running ↦ elim (update_payment-Updated id tenant as_failed d) [
      | missing _ r ↦ rw (e, with_transaction, guarded_update, running, r) (untouched refl)
      | refused _ _ _ r ↦ rw (e, with_transaction, guarded_update, running, r) (untouched refl)
      | written q logged found _ _ r ↦
          rw (e, with_transaction, guarded_update, running, r)
            (patched q found (
              find_row-write_row id tenant d.payments (as_failed q) found
                (find_row-is_row id tenant d.payments found)))
    ]
  ]
]

pub persist_refs-NewRow :
    (id tenant : ℕ) (ref chain : Option ℕ) (d : Db)
    → NewRow id tenant
        (with_refs ref chain)
        d.payments
        (persist_refs id tenant ref chain d).1.payments
unfolding persist_refs
persist_refs-NewRow id tenant ref chain d =
    update-NewRow id tenant (with_refs ref chain) (λ p h. h) d

pub settle_payment-NewRow :
    (id tenant at : ℕ) (d : Db)
    → NewRow id tenant (as_settled at) d.payments (settle_payment id tenant at d).1.payments
unfolding settle_payment
settle_payment-NewRow id tenant at d = update-NewRow id tenant (as_settled at) (λ p h. h) d
