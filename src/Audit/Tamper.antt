-- ===== src/Audit/Tamper.antt =====
-- What a change of the table cannot hide.
use stablecoin_treasury.Prelude.{
  ◌+◌, ◌≡◌, sym, ap, ◌∙◌, inl, inr, none, List, [], ◌∷◌, Option-cases, refl, subst, false, All,
}
use stablecoin_treasury.Prelude.Strings.{
  Text, before, after, Free, before-append, after-append, is_empty,
}
use stablecoin_treasury.Audit.Chain.{
  AuditRow, unit_separator, then_field, canonical_hash, head_seq, head_hash, first_break,
  AuditEvent, canonical, chain_of, verify_audit_chain,
}
use stablecoin_treasury.Audit.Linked.{Plain, Linked, unbroken-Linked}

field_injective :
    (s t rest rest' : Text)
    → Free unit_separator s
    → Free unit_separator t
    → then_field s rest ≡ then_field t rest'
    → (s ≡ t) × (rest ≡ rest')
field_injective s t rest rest' hs ht e = (
  sym (before-append unit_separator s rest hs)
      ∙ ap (before unit_separator) e
      ∙ before-append unit_separator t rest' ht,
  sym (after-append unit_separator s rest hs)
      ∙ ap (after unit_separator) e
      ∙ after-append unit_separator t rest' ht,
)

event_ext :
    (e f : AuditEvent)
    → e.tenant_id ≡ f.tenant_id
    → e.id ≡ f.id
    → e.actor ≡ f.actor
    → e.action ≡ f.action
    → e.object ≡ f.object
    → e.detail ≡ f.detail
    → e.at ≡ f.at
    → e ≡ f
event_ext e f h0 h1 h2 h3 h4 h5 h6 = cc

canonical_injective :
    (r r' : AuditRow)
    → Plain r
    → Plain r'
    → canonical r.event r.prev_hash ≡ canonical r'.event r'.prev_hash
    → (r.event ≡ r'.event) × (r.prev_hash ≡ r'.prev_hash)
unfolding canonical
canonical_injective r r' p p' h =
    let e = r.event in
    let f = r'.event in
    let h0 =
      field_injective e.tenant_id f.tenant_id
        (then_field e.id (
          then_field e.actor (
            then_field e.action
              (then_field e.object (then_field e.detail (then_field e.at r.prev_hash))))))
        (then_field f.id (
          then_field f.actor (
            then_field f.action
              (then_field f.object (then_field f.detail (then_field f.at r'.prev_hash))))))
        p.0 p'.0 h in
    let h1 =
      field_injective e.id f.id
        (then_field e.actor (
          then_field e.action
            (then_field e.object (then_field e.detail (then_field e.at r.prev_hash)))))
        (then_field f.actor (
          then_field f.action
            (then_field f.object (then_field f.detail (then_field f.at r'.prev_hash)))))
        p.1 p'.1 h0.1 in
    let h2 =
      field_injective e.actor f.actor
        (then_field e.action
          (then_field e.object (then_field e.detail (then_field e.at r.prev_hash))))
        (then_field f.action
          (then_field f.object (then_field f.detail (then_field f.at r'.prev_hash))))
        p.2 p'.2 h1.1 in
    let h3 =
      field_injective e.action f.action
        (then_field e.object (then_field e.detail (then_field e.at r.prev_hash)))
        (then_field f.object (then_field f.detail (then_field f.at r'.prev_hash))) p.3 p'.3 h2.1 in
    let h4 =
      field_injective e.object f.object (then_field e.detail (then_field e.at r.prev_hash))
        (then_field f.detail (then_field f.at r'.prev_hash)) p.4 p'.4 h3.1 in
    let h5 =
      field_injective e.detail f.detail (then_field e.at r.prev_hash) (then_field f.at r'.prev_hash)
        p.5 p'.5 h4.1 in
    let h6 = field_injective e.at f.at r.prev_hash r'.prev_hash p.6 p'.6 h5.1 in
    (event_ext e f h0.0 h1.0 h2.0 h3.0 h4.0 h5.0 h6.0, h6.1)

row_ext :
    (r s : AuditRow)
    → r.event ≡ s.event
    → r.chain_seq ≡ s.chain_seq
    → r.prev_hash ≡ s.prev_hash
    → r.row_hash ≡ s.row_hash
    → r ≡ s
row_ext r s h0 h1 h2 h3 = cc

cons_ext : (r s : AuditRow) (rs ss : List AuditRow) → r ≡ s → rs ≡ ss → (r ∷ rs) ≡ (s ∷ ss)
cons_ext r s rs ss h k = cc

-- A hash of which no two texts and no empty result are known.
module _ (digest : Text → Text) (injective : (s t : Text) → digest s ≡ digest t → s ≡ t)
    (some_digest : (t : Text) → is_empty (digest t) ≡ false) where
  head-hashed :
      (r : AuditRow) (older : List AuditRow)
      → Linked digest (r ∷ older)
      → [] ≡ r.row_hash
      → is_empty r.row_hash ≡ false
  unfolding Linked canonical_hash
  head-hashed r older h e =
      subst (λ t. is_empty t ≡ false) (sym h.0) (some_digest (canonical r.event r.prev_hash))

  same_chain :
      (c c' : List AuditRow)
      → All Plain c
      → All Plain c'
      → Linked digest c
      → Linked digest c'
      → head_hash c ≡ head_hash c'
      → c ≡ c'
  unfolding Linked canonical_hash
  same_chain [] [] p p' l l' e = refl
  same_chain [] (r ∷ rs) p p' l l' e = let full = head-hashed r rs l' e in cc (ap is_empty e ∙ full)
  same_chain (r ∷ rs) [] p p' l l' e =
      let full = head-hashed r rs l (sym e) in cc (ap is_empty (sym e) ∙ full)
  same_chain (r ∷ rs) (s ∷ ss) p p' l l' e =
      let texts =
        injective (canonical r.event r.prev_hash) (canonical s.event s.prev_hash)
          (sym l.0 ∙ e ∙ l'.0) in
      let same = canonical_injective r s p.0 p'.0 texts in
      let tails = same_chain rs ss p.1 p'.1 l.3 l'.3 (sym l.1 ∙ same.1 ∙ l'.1) in
      cons_ext r s rs ss
        (row_ext r s same.0 (l.2 ∙ ap (λ c. head_seq c + 1) tails ∙ sym l'.2) same.1 e) tails

verified-Linked :
    (digest : Text → Text) (tenant : Text) (rows : List AuditRow)
    → verify_audit_chain digest (tenant ∷ []) rows ≡ none
    → Linked digest (chain_of tenant rows)
unfolding verify_audit_chain
verified-Linked digest tenant rows h =
    elim (Option-cases (first_break digest (chain_of tenant rows))) [
      | inl e ↦ unbroken-Linked digest (chain_of tenant rows) e
      | inr (b, e) ↦ cc (rw (verify_audit_chain, e) at h)
    ]

-- With a hash without collisions and fields without the separator, two tables that verify and
-- whose chains of a tenant end in the same hash have the same chain of it: no field, no row and no
-- order before the newest hash can be changed and still verify.
pub verified-unchanged :
    (digest : Text → Text) (tenant : Text) (rows rows' : List AuditRow)
    → ((s t : Text) → digest s ≡ digest t → s ≡ t)
    → ((t : Text) → is_empty (digest t) ≡ false)
    → All Plain (chain_of tenant rows)
    → All Plain (chain_of tenant rows')
    → verify_audit_chain digest (tenant ∷ []) rows ≡ none
    → verify_audit_chain digest (tenant ∷ []) rows' ≡ none
    → head_hash (chain_of tenant rows) ≡ head_hash (chain_of tenant rows')
    → chain_of tenant rows ≡ chain_of tenant rows'
verified-unchanged digest tenant rows rows' injective some_digest p p' h h' e =
    same_chain digest injective some_digest (chain_of tenant rows) (chain_of tenant rows') p p'
      (verified-Linked digest tenant rows h) (verified-Linked digest tenant rows' h') e
