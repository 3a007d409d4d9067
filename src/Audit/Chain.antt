-- ===== src/Audit/Chain.antt =====
-- The hash chain of operations.audit_events (packages/shared/audit.mjs). The table lists its rows
-- with the newest first.
use stablecoin_treasury.Prelude.{
  ℕ, ◌+◌, not, Option, none, some, List, [], ◌∷◌, ◌++◌, ltb, ◌==◌, if◌then◌else◌,
}
use stablecoin_treasury.Prelude.Strings.{Text, text_eq}

-- An event, with the texts that its tenant and its time have in the hash.
pub record AuditEvent : Type 0 where
  pub id : Text
  pub tenant_id : Text
  pub actor : Text
  pub action : Text
  pub object : Text
  pub detail : Text
  pub at : Text

-- A row of operations.audit_events.
pub record AuditRow : Type 0 where
  pub event : AuditEvent
  pub chain_seq : ℕ
  pub prev_hash : Text
  pub row_hash : Text

-- 0x1F
abbrev pub unit_separator : ℕ
unit_separator = 31

abbrev pub then_field : Text → Text → Text
then_field field rest = field ++ unit_separator ∷ rest

-- The text that is hashed.
unfoldable pub canonical : AuditEvent → Text → Text
canonical e prev = then_field e.tenant_id (
    then_field e.id (
      then_field e.actor
        (then_field e.action (then_field e.object (then_field e.detail (then_field e.at prev))))))

-- CANONICAL_HASH_SQL, with SHA-256 in hexadecimal digits as an argument.
unfoldable pub canonical_hash : (Text → Text) → AuditEvent → Text → Text
unfolding canonical
canonical_hash digest e prev = digest (canonical e prev)

-- The rows of a tenant, from the greatest `chain_seq` down.
unfoldable pub insert_row : AuditRow → List AuditRow → List AuditRow
insert_row r [] = r ∷ []
insert_row r (x ∷ xs) =
    let rest = insert_row r xs in if ltb x.chain_seq r.chain_seq then r ∷ x ∷ xs else x ∷ rest

unfoldable pub chain_of : Text → List AuditRow → List AuditRow
unfolding text_eq insert_row
chain_of tenant [] = []
chain_of tenant (r ∷ rs) =
    let rest = chain_of tenant rs in
    if text_eq r.event.tenant_id tenant then insert_row r rest else rest

abbrev pub head_seq : List AuditRow → ℕ
head_seq [] = 0
head_seq (r ∷ rs) = r.chain_seq

abbrev pub head_hash : List AuditRow → Text
head_hash [] = []
head_hash (r ∷ rs) = r.row_hash

-- The new row of CHAINED_INSERT_SQL.
unfoldable pub chained_row : (Text → Text) → AuditEvent → List AuditRow → AuditRow
unfolding canonical_hash
chained_row digest e chain = record {
  event = e;
  chain_seq = head_seq chain + 1;
  prev_hash = head_hash chain;
  row_hash = canonical_hash digest e (head_hash chain);
}

-- `insertAuditEventChained`
unfoldable pub insert_audit_event : (Text → Text) → AuditEvent → List AuditRow → List AuditRow
unfolding chained_row chain_of
insert_audit_event digest e rows = chained_row digest e (chain_of e.tenant_id rows) ∷ rows

pub data Reason : Type 0 where
  row_hash_mismatch missing_genesis sequence_gap prev_hash_mismatch : Reason

pub record Break : Type 0 where
  pub id : Text
  pub tenant_id : Text
  pub chain_seq : ℕ
  pub reason : Reason

-- The CASE of VERIFY_SQL, for a row and the rows before it.
abbrev pub seq_reason : ℕ → List AuditRow → Option Reason
seq_reason seq [] = if seq == 1 then none else some missing_genesis
seq_reason seq (p ∷ ps) = if seq == p.chain_seq + 1 then none else some sequence_gap

unfoldable pub prev_reason : Text → Text → Option Reason → Option Reason
unfolding text_eq
prev_reason prev expected (some reason) = some reason
prev_reason prev expected none = if text_eq prev expected then none else some prev_hash_mismatch

unfoldable pub row_reason : (Text → Text) → AuditRow → List AuditRow → Option Reason
unfolding canonical_hash prev_reason text_eq
row_reason digest r older =
    if not (text_eq r.row_hash (canonical_hash digest r.event r.prev_hash))
    then some row_hash_mismatch
    else prev_reason r.prev_hash (head_hash older) (seq_reason r.chain_seq older)

abbrev pub as_break : AuditRow → Option Reason → Option Break
as_break r none = none
as_break r (some reason) = some (record {
  id = r.event.id;
  tenant_id = r.event.tenant_id;
  chain_seq = r.chain_seq;
  reason = reason;
})

-- The break with the least `chain_seq` of a chain.
unfoldable pub first_break : (Text → Text) → List AuditRow → Option Break
unfolding row_reason
first_break digest [] = none
first_break digest (r ∷ older) = elim (first_break digest older) [
  | some b ↦ some b
  | none ↦ as_break r (row_reason digest r older)
]

-- `verifyAuditChain`, for the tenants in their order; `none` is `ok: true`.
unfoldable pub verify_audit_chain : (Text → Text) → List Text → List AuditRow → Option Break
unfolding first_break chain_of
verify_audit_chain digest [] rows = none
verify_audit_chain digest (tenant ∷ tenants) rows =
    elim (first_break digest (chain_of tenant rows)) [
      | some b ↦ some b
      | none ↦ verify_audit_chain digest tenants rows
    ]
