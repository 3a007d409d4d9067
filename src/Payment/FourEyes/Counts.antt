-- ===== src/Payment/FourEyes/Counts.antt =====
-- The invariant of payments and approvals, and how a new approval changes the counts.
use stablecoin_treasury.Prelude.{
  ℕ, suc, ◌≤◌, ◌≡◌, refl, Bool, true, false, List, [], ◌∷◌, ◌==◌, ==_refl, ==_sym, arith, All, any,
}
use stablecoin_treasury.Prelude.Outcome.{Outcome, ok, err}
use stablecoin_treasury.Payment.Types.{
  Status, pending_approval, approved, blocked, cancelled, executing, settled, failed, Payment,
  Approval, Db, Error,
}
use stablecoin_treasury.Payment.Table.{with_transaction}
use stablecoin_treasury.Payment.Rows.{has_id, UniqueIds}
use stablecoin_treasury.Payment.Approve.{has_approval, count_approvers, new_approval}

-- The statuses that a payment reaches through an approval only.
abbrev pub is_released : Status → Bool
is_released pending_approval = false
is_released approved = true
is_released blocked = false
is_released cancelled = false
is_released executing = true
is_released settled = true
is_released failed = true

-- The count in the row is exact, and suffices once the payment was released.
abbrev pub IsCounted : List Approval → Payment → Type 0
IsCounted approvals p =
    (p.approvals ≡ count_approvers p.id approvals)
    × (is_released p.status ≡ true → p.required_approvals ≤ p.approvals)

abbrev pub mentions : ℕ → List Approval → Bool
mentions id = any (λ a. a.payment_id == id)

-- The invariant, over the two tables: the primary key, exact counts, and the foreign key.
pub record HasApprovals (payments : List Payment) (approvals : List Approval) : Type 0 where
  pub unique : UniqueIds payments
  pub counted : All (IsCounted approvals) payments
  pub known : (id : ℕ) → has_id id payments ≡ false → mentions id approvals ≡ false

abbrev pub Inv : Db → Type 0
Inv db = HasApprovals db.payments db.approvals

-- What a transaction's body leaves, if it does not throw, satisfies the invariant.
abbrev pub Keeps : {A : Type 0} → Outcome Error (A × Db) → Type 0
Keeps (ok (_, db)) = Inv db
Keeps (err _) = Unit

pub with_transaction-Inv :
    {A : Type 0} (f : Db → Outcome Error (A × Db)) (db : Db)
    → Inv db
    → Keeps (f db)
    → Inv (with_transaction f db).1
with_transaction-Inv {A} f db h k = go (f db) k
  where
    go : (r : Outcome Error (A × Db)) → Keeps r → Inv (with_transaction (λ _. r) db).1
    go (ok (a, db')) k' = k'
    go (err e) k' = h

pub count_approvers-unmentioned :
    (id : ℕ) (approvals : List Approval)
    → mentions id approvals ≡ false
    → count_approvers id approvals ≡ 0
unfolding count_approvers
count_approvers-unmentioned id [] h = refl
count_approvers-unmentioned id (a ∷ rest) h = ground (arith, count_approvers-unmentioned id rest)

pub has_approval-unmentioned :
    (id approver : ℕ) (approvals : List Approval)
    → mentions id approvals ≡ false
    → has_approval id approver approvals ≡ false
has_approval-unmentioned id approver [] h = refl
has_approval-unmentioned id approver (a ∷ rest) h =
    ground (arith, has_approval-unmentioned id approver rest)

module _ (id tenant approver : ℕ) (approvals : List Approval) where
  abbrev add_approval : List Approval
  add_approval = new_approval id tenant approver ∷ approvals

  -- An approval by a new approver counts once for its own payment,
  pub count_approvers-insert_self :
      has_approval id approver approvals ≡ false
      → count_approvers id add_approval ≡ suc (count_approvers id approvals)
  unfolding count_approvers
  count_approvers-insert_self h = rw (==_refl id, h)

  -- and for no other.
  pub count_approvers-insert_ne :
      (j : ℕ) → (j == id) ≡ false → count_approvers j add_approval ≡ count_approvers j approvals
  unfolding count_approvers
  count_approvers-insert_ne j other = rw (==_sym id j, other)

  pub mentions-insert :
      (j : ℕ) → (id == j) ≡ false → mentions j approvals ≡ false → mentions j add_approval ≡ false
  mentions-insert j other h = rw (other, h)
