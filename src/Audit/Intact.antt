-- ===== src/Audit/Intact.antt =====
-- What the code appends verifies.
use stablecoin_treasury.Prelude.{
  ◌+◌, ◌<◌, ◌≡◌, refl, inl, inr, true, none, List, [], ◌∷◌, arith, ltb, ==_refl, Bool-cases, sym,
  subst,
}
use stablecoin_treasury.Prelude.Strings.{Text, text_eq, text_eq_refl, text_eq_sound}
use stablecoin_treasury.Audit.Chain.{
  AuditEvent, AuditRow, canonical_hash, insert_row, chain_of, head_seq, chained_row,
  insert_audit_event, row_reason, first_break, verify_audit_chain,
}

unfoldable pub insert_audit_events : (Text → Text) → List AuditEvent → List AuditRow
unfolding insert_audit_event
insert_audit_events digest [] = []
insert_audit_events digest (e ∷ es) = insert_audit_event digest e (insert_audit_events digest es)

-- A row whose number is above the others' stands first.
insert-first :
    (r : AuditRow) (rows : List AuditRow)
    → head_seq rows < r.chain_seq
    → insert_row r rows ≡ r ∷ rows
unfolding insert_row
insert-first r [] h = refl
insert-first r (x ∷ xs) h = let t : ltb x.chain_seq r.chain_seq ≡ true = ground arith in rw t refl

next_seq :
    (digest : Text → Text) (e : AuditEvent) (chain : List AuditRow)
    → head_seq chain < (chained_row digest e chain).chain_seq
unfolding chained_row
next_seq digest e chain = omega arith

chained-no_break :
    (digest : Text → Text) (e : AuditEvent) (chain : List AuditRow)
    → row_reason digest (chained_row digest e chain) chain ≡ none
unfolding row_reason chained_row
chained-no_break digest e [] = rw (text_eq_refl (canonical_hash digest e [])) refl
chained-no_break digest e (p ∷ ps) =
    rw
      (
        text_eq_refl (canonical_hash digest e p.row_hash),
        ==_refl (p.chain_seq + 1),
        text_eq_refl p.row_hash,
      )
      refl

appended-no_break :
    (digest : Text → Text) (e : AuditEvent) (chain : List AuditRow)
    → first_break digest chain ≡ none
    → first_break digest (insert_row (chained_row digest e chain) chain) ≡ none
unfolding first_break
appended-no_break digest e chain h =
    rw
      (
        insert-first (chained_row digest e chain) chain (next_seq digest e chain),
        h,
        chained-no_break digest e chain,
      )
      refl

-- Appending keeps the chain of every tenant.
append-no_break :
    (digest : Text → Text) (e : AuditEvent) (rows : List AuditRow) (tenant : Text)
    → first_break digest (chain_of tenant rows) ≡ none
    → first_break digest (chain_of tenant (insert_audit_event digest e rows)) ≡ none
unfolding insert_audit_event chain_of chained_row
append-no_break digest e rows tenant h = elim (Bool-cases (text_eq e.tenant_id tenant)) [
  | inr other ↦ rw other h
  | inl own ↦
      let same = text_eq_sound e.tenant_id tenant own in
      rw own (
        subst
          (λ t.
            first_break digest
              (insert_row (chained_row digest e (chain_of t rows)) (chain_of tenant rows))
            ≡ none)
          (sym same) (appended-no_break digest e (chain_of tenant rows) h))
]

unbroken :
    (digest : Text → Text) (events : List AuditEvent) (tenant : Text)
    → first_break digest (chain_of tenant (insert_audit_events digest events)) ≡ none
unfolding insert_audit_events first_break chain_of
unbroken digest [] tenant = refl
unbroken digest (e ∷ es) tenant =
    append-no_break digest e (insert_audit_events digest es) tenant (unbroken digest es tenant)

-- The chains of whatever events are appended, of any tenants in any order, verify.
pub appended-verified :
    (digest : Text → Text) (tenants : List Text) (events : List AuditEvent)
    → verify_audit_chain digest tenants (insert_audit_events digest events) ≡ none
unfolding verify_audit_chain
appended-verified digest [] events = refl
appended-verified digest (tenant ∷ tenants) events =
    rw (verify_audit_chain, unbroken digest events tenant) (appended-verified digest tenants events)
