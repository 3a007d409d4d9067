-- ===== src/Payment/Rows.antt =====
-- Laws of the row operations on payment.payments, whose primary key is the id.
use stablecoin_treasury.Prelude.{
  ℕ, ◌≡◌, refl, inl, inr, Bool, true, false, none, some, List, [], ◌∷◌, ◌==◌, arith, All, any,
  Bool-cases, ap, ==_iff,
}
use stablecoin_treasury.Payment.Types.{Payment}
use stablecoin_treasury.Payment.Table.{find_row, write_row, is_row}

abbrev pub has_id : ℕ → List Payment → Bool
has_id id = any (λ q. q.id == id)

abbrev pub UniqueIds : List Payment → Type 0
UniqueIds [] = Unit
UniqueIds (p ∷ ps) = (has_id p.id ps ≡ false) × UniqueIds ps

pub has_id-write_row :
    (j id tenant : ℕ) (new : Payment) (ps : List Payment)
    → new.id ≡ id
    → has_id j (write_row id tenant new ps) ≡ has_id j ps
has_id-write_row j id tenant new [] e = refl
has_id-write_row j id tenant new (p ∷ ps) e = ground (arith, has_id-write_row j id tenant new ps e)

pub write_row-UniqueIds :
    (id tenant : ℕ) (new : Payment) (ps : List Payment)
    → new.id ≡ id
    → UniqueIds ps
    → UniqueIds (write_row id tenant new ps)
write_row-UniqueIds id tenant new [] e u = tt
write_row-UniqueIds id tenant new (p ∷ ps) e u = ground (
  arith,
  write_row-UniqueIds id tenant new ps e u.1,
  has_id-write_row p.id id tenant new ps e,
  has_id-write_row new.id id tenant new ps e,
)

pub find_row-fresh :
    (id tenant : ℕ) (ps : List Payment) → has_id id ps ≡ false → find_row id tenant ps ≡ none
find_row-fresh id tenant [] h = refl
find_row-fresh id tenant (p ∷ ps) h = ground (arith, find_row-fresh id tenant ps)

-- A row that is found carries the id and the tenant of the search.
pub find_row-is_row :
    (id tenant : ℕ) (ps : List Payment) {p : Payment}
    → find_row id tenant ps ≡ some p
    → is_row id tenant p ≡ true
find_row-is_row id tenant [] h = cc
find_row-is_row id tenant (q ∷ ps) {p} h = ground (arith, find_row-is_row id tenant ps {p = p})

module _ (P P' : Payment → Type 0) (id tenant : ℕ) where
  fresh-All :
      (new : Payment) (ps : List Payment)
      → ((q : Payment) → (q.id == id) ≡ false → P q → P' q)
      → has_id id ps ≡ false
      → All P ps
      → All P' (write_row id tenant new ps)
  fresh-All new [] keep f h = tt
  fresh-All new (p ∷ ps) keep f h = elim (Bool-cases (p.id == id)) [
    | inl same ↦ cc (rw same at f)
    | inr other ↦ rw other (keep p other h.0, fresh-All new ps keep (rw other at f) h.1)
  ]

  -- A predicate that holds of the new row, and that the other rows keep, holds after the write.
  pub write_row-All :
      (new : Payment) (ps : List Payment)
      → ((q : Payment) → (q.id == id) ≡ false → P q → P' q)
      → {old : Payment} → find_row id tenant ps ≡ some old
      → UniqueIds ps
      → P' new
      → All P ps
      → All P' (write_row id tenant new ps)
  write_row-All new [] keep found u n h = tt
  write_row-All new (p ∷ ps) keep found u n h = elim (Bool-cases (p.id == id)) [
    | inl same ↦
        let fresh : has_id id ps ≡ false = ground (arith, u.0) in
        elim (Bool-cases (p.tenant_id == tenant)) [
          | inl mine ↦ rw (same, mine) (n, fresh-All new ps keep fresh h.1)
          | inr theirs ↦ ground (arith, find_row-fresh id tenant ps fresh)
        ]
    | inr other ↦
        rw other (keep p other h.0, write_row-All new ps keep (rw other at found) u.1 n h.1)
  ]

pub find_row-id :
    (id tenant : ℕ) (ps : List Payment) {p : Payment} → find_row id tenant ps ≡ some p → p.id ≡ id
find_row-id id tenant ps {p} h = ground (arith, find_row-is_row id tenant ps {p = p} h)

pub find_row-has_id :
    (id tenant : ℕ) (ps : List Payment) {p : Payment}
    → find_row id tenant ps ≡ some p
    → has_id id ps ≡ true
find_row-has_id id tenant [] h = cc
find_row-has_id id tenant (q ∷ ps) {p} h = ground (arith, find_row-has_id id tenant ps {p = p})

pub ne_of_has_id :
    (j id : ℕ) (ps : List Payment) → has_id j ps ≡ false → has_id id ps ≡ true → (id == j) ≡ false
ne_of_has_id j id ps missing there = elim (Bool-cases (id == j)) [
  | inl same ↦ cc (ap (λ k. has_id k ps) ((==_iff id j).0 same))
  | inr other ↦ other
]

-- Rows with other ids than `id`.
pub All-fresh :
    (P P' : Payment → Type 0) (id : ℕ) (ps : List Payment)
    → ((q : Payment) → (q.id == id) ≡ false → P q → P' q)
    → has_id id ps ≡ false
    → All P ps
    → All P' ps
All-fresh P P' id [] keep f h = tt
All-fresh P P' id (p ∷ ps) keep f h = elim (Bool-cases (p.id == id)) [
  | inl same ↦ cc (rw same at f)
  | inr other ↦ (keep p other h.0, All-fresh P P' id ps keep (rw other at f) h.1)
]
