-- ===== src/Payment/Lifecycle/Moves.antt =====
-- Every row that was there is there afterwards, at a status that the trigger's graph allows, with
-- its terms unchanged.
use mathlib.Core.Path.{subst}
use stablecoin_treasury.Prelude.{
  ℕ, ◌≡◌, refl, sym, ◌∙◌, inl, inr, true, false, some, List, [], ◌∷◌, ◌==◌, arith, Bool-cases, ◌&&◌,
  ap,
}
use stablecoin_treasury.Prelude.Outcome.{Outcome, ok, err, ◌>>=◌}
use stablecoin_treasury.Payment.Types.{Status, Payment, Db, Error}
use stablecoin_treasury.Payment.Table.{
  find_row, is_row, write_row, update_payment, with_transaction,
}
use stablecoin_treasury.Payment.Rows.{find_row-is_row}
use stablecoin_treasury.Payment.Updated.{is_step, update_payment-Updated, missing, refused, written}

-- What a payment keeps for life: its parties, its money, and what it takes to release it.
pub record SameTerms (p q : Payment) : Type 0 where
  pub amount : q.amount ≡ p.amount
  pub fee : q.fee ≡ p.fee
  pub asset : q.asset ≡ p.asset
  pub source : q.source_wallet_id ≡ p.source_wallet_id
  pub counterparty : q.counterparty_id ≡ p.counterparty_id
  pub required : q.required_approvals ≡ p.required_approvals
  pub creator : q.created_by ≡ p.created_by

pub record Moved (p q : Payment) : Type 0 where
  pub step : is_step p.status q.status ≡ true
  pub terms : SameTerms p q

-- Every payment of the first table is in the second, moved by one step at most.
abbrev pub Follows : List Payment → List Payment → Type 0
Follows ps qs =
    (id tenant : ℕ) (p : Payment)
    → find_row id tenant ps ≡ some p
    → (q : Payment) × (find_row id tenant qs ≡ some q) × Moved p q

pub is_step_refl : (s : Status) → is_step s s ≡ true
is_step_refl s = ground arith

pub Moved-refl : (p : Payment) → Moved p p
Moved-refl p = record {
  step = is_step_refl p.status;
  terms = record {
    amount = refl;
    fee = refl;
    asset = refl;
    source = refl;
    counterparty = refl;
    required = refl;
    creator = refl;
  };
}

pub Follows-refl : (ps : List Payment) → Follows ps ps
Follows-refl ps id tenant p e = (p, e, Moved-refl p)

-- A read after a write.
find_row-write_self :
    (id tenant : ℕ) (new : Payment) (ps : List Payment) {old : Payment}
    → find_row id tenant ps ≡ some old
    → is_row id tenant new ≡ true
    → find_row id tenant (write_row id tenant new ps) ≡ some new
find_row-write_self id tenant new [] found mine = cc
find_row-write_self id tenant new (p ∷ ps) {old} found mine =
    elim (Bool-cases (is_row id tenant p)) [
      | inl hit ↦ rw (hit, mine)
      | inr miss ↦
          rw (miss, miss) (find_row-write_self id tenant new ps {old = old} (rw miss at found) mine)
    ]

find_row-write_ne :
    (j s id tenant : ℕ) (new : Payment) (ps : List Payment)
    → is_row id tenant new ≡ true
    → (j == id) && (s == tenant) ≡ false
    → find_row j s (write_row id tenant new ps) ≡ find_row j s ps
find_row-write_ne j s id tenant new [] mine other = refl
find_row-write_ne j s id tenant new (p ∷ ps) mine other =
    ground (arith, find_row-write_ne j s id tenant new ps mine other)

write_row-Follows :
    (id tenant : ℕ) (old new : Payment) (ps : List Payment)
    → find_row id tenant ps ≡ some old
    → is_row id tenant new ≡ true
    → Moved old new
    → Follows ps (write_row id tenant new ps)
write_row-Follows id tenant old new ps found mine moved j s p e =
    elim (Bool-cases ((j == id) && (s == tenant))) [
      | inr other ↦ (p, find_row-write_ne j s id tenant new ps mine other ∙ e, Moved-refl p)
      | inl here ↦
          let ej : j ≡ id = ground arith in
          let es : s ≡ tenant = ground arith in
          let same : some old ≡ some p =
            sym found
            ∙ ap (λ k. find_row k tenant ps) (sym ej)
            ∙ ap (λ k. find_row j k ps) (sym es)
            ∙ e in
          (
            new,
            rw (ej, es) (find_row-write_self id tenant new ps found mine),
            subst (λ o. Moved o new) (cc same) moved,
          )
    ]

-- What a transaction's body leaves, if it does not throw, follows from the rows `start`.
abbrev pub Leads : {A : Type 0} → List Payment → Outcome Error (A × Db) → Type 0
Leads start (ok (_, db)) = Follows start db.payments
Leads start (err _) = Unit

pub with_transaction-Follows :
    {A : Type 0} (f : Db → Outcome Error (A × Db)) (db : Db)
    → Leads db.payments (f db)
    → Follows db.payments (with_transaction f db).1.payments
with_transaction-Follows {A} f db k = go (f db) k
  where
    go :
        (r : Outcome Error (A × Db))
        → Leads db.payments r
        → Follows db.payments (with_transaction (λ _. r) db).1.payments
    go (ok (a, db')) k' = k'
    go (err e) k' = Follows-refl db.payments

pub >>=-Leads :
    {A B : Type 0} (start : List Payment) (m : Outcome Error (A × Db))
    (f : A × Db → Outcome Error (B × Db))
    → Leads start m
    → ((a : A) (db : Db) → Follows start db.payments → Leads start (f (a, db)))
    → Leads start (m >>= f)
>>=-Leads start (ok (a, db)) f k next = next a db k
>>=-Leads start (err e) f k next = tt

-- An UPDATE whose patch keeps the key and the terms.
pub update_payment-Leads :
    (id tenant : ℕ) (patch : Payment → Payment) (db : Db)
    → ((p : Payment) → ((patch p).id ≡ p.id) × ((patch p).tenant_id ≡ p.tenant_id))
    → ((p : Payment) → SameTerms p (patch p))
    → Leads db.payments (update_payment id tenant patch db)
update_payment-Leads id tenant patch db key terms =
    elim (update_payment-Updated id tenant patch db) [
      | missing e r ↦ rw r (Follows-refl db.payments)
      | refused old e no_step r ↦ rw r tt
      | written old logged e step trig r ↦ rw r (
          write_row-Follows id tenant old (patch old) db.payments e
            (ground (arith, key old, find_row-is_row id tenant db.payments {p = old} e))
            (record { step = step; terms = terms old }))
    ]
