-- ===== src/Audit/Linked.antt =====
-- What the verification of the chain finds: every row linked to the one before it.
use stablecoin_treasury.Prelude.{
  ◌+◌, ◌≡◌, inl, inr, none, List, [], ◌∷◌, Bool-cases, Option-cases, ℕ, refl, Option, some, arith,
}
use stablecoin_treasury.Prelude.Strings.{Text, text_eq, Free, text_eq_sound}
use stablecoin_treasury.Audit.Chain.{
  AuditRow, unit_separator, canonical_hash, head_seq, head_hash, row_reason, first_break, Reason,
  seq_reason, prev_reason, as_break,
}

-- No hashed field has the separator.
abbrev pub Plain : AuditRow → Type 0
Plain r =
    Free unit_separator r.event.tenant_id
    × Free unit_separator r.event.id
    × Free unit_separator r.event.actor
    × Free unit_separator r.event.action
    × Free unit_separator r.event.object
    × Free unit_separator r.event.detail
    × Free unit_separator r.event.at

-- The chain of a tenant as its verification has it: each row has its place, the hash of the row
-- before it, and its own.
unfoldable pub Linked : (Text → Text) → List AuditRow → Type 0
Linked digest [] = Unit
Linked digest (r ∷ older) =
    (r.row_hash ≡ canonical_hash digest r.event r.prev_hash)
    × (r.prev_hash ≡ head_hash older)
    × (r.chain_seq ≡ head_seq older + 1)
    × Linked digest older

seq_place :
    (seq : ℕ) (older : List AuditRow) → seq_reason seq older ≡ none → seq ≡ head_seq older + 1
seq_place seq [] h = ground arith
seq_place seq (p ∷ ps) h = ground arith

prev_ok :
    (prev expected : Text) (o : Option Reason)
    → prev_reason prev expected o ≡ none
    → (o ≡ none) × (prev ≡ expected)
unfolding prev_reason
prev_ok prev expected (some reason) h = cc
prev_ok prev expected none h = elim (Bool-cases (text_eq prev expected)) [
  | inl same ↦ (refl, text_eq_sound prev expected same)
  | inr other ↦ cc (rw other at h)
]

row_links :
    (digest : Text → Text) (r : AuditRow) (older : List AuditRow)
    → row_reason digest r older ≡ none
    → (r.row_hash ≡ canonical_hash digest r.event r.prev_hash)
      × (r.prev_hash ≡ head_hash older)
      × (r.chain_seq ≡ head_seq older + 1)
unfolding row_reason
row_links digest r older h =
    elim (Bool-cases (text_eq r.row_hash (canonical_hash digest r.event r.prev_hash))) [
      | inr bad ↦ cc (rw bad at h)
      | inl good ↦
          let p =
            prev_ok r.prev_hash (head_hash older) (seq_reason r.chain_seq older) (rw good at h) in
          (
            text_eq_sound r.row_hash (canonical_hash digest r.event r.prev_hash) good,
            p.1,
            seq_place r.chain_seq older p.0,
          )
    ]

no_reason : (r : AuditRow) (o : Option Reason) → as_break r o ≡ none → o ≡ none
no_reason r none h = refl
no_reason r (some reason) h = cc

pub unbroken-Linked :
    (digest : Text → Text) (chain : List AuditRow)
    → first_break digest chain ≡ none
    → Linked digest chain
unfolding first_break Linked
unbroken-Linked digest [] h = tt
unbroken-Linked digest (r ∷ older) h = elim (Option-cases (first_break digest older)) [
  | inr (b, e) ↦ cc (rw e at h)
  | inl e ↦
      let l = row_links digest r older (no_reason r (row_reason digest r older) (rw e at h)) in
      (l.0, l.1, l.2, unbroken-Linked digest older e)
]
