-- ===== src/Reconciliation/Ingest.antt =====
-- `ingestStatement` (services/reconciliation-service/src/statements.mjs). The dates of a statement
-- and of its lines, and the raw lines, are left out.
use stablecoin_treasury.Prelude.{
  ℕ, ◌+◌, ◌≡◌, refl, inl, inr, Bool, true, false, not, ◌&&◌, ◌||◌, Option, none, some, List, [],
  ◌∷◌, ◌++◌, map, ◌==◌, if◌then◌else◌, ==_refl, Bool-cases, length, any,
}
use stablecoin_treasury.Prelude.Strings.{Text, text_eq, is_empty, text_eq_refl}
use stablecoin_treasury.Prelude.Outcome.{Outcome, ok, err}
use stablecoin_treasury.Prelude.Int.{ℤ}
use stablecoin_treasury.Money.Convert.{Value, Number, nan, cents, money_number}
use stablecoin_treasury.Platform.Jobs.{JobTable, match_statement, enqueue_job}

-- A line of the body; a missing text is empty.
pub record LineInput : Type 0 where
  pub provider_ref : Text
  pub amount : Value
  pub asset : Text

-- The body; `lines` is `none` where it is no array.
pub record StatementBody : Type 0 where
  pub provider_id : Text
  pub external_id : Text
  pub lines : Option (List LineInput)

-- Rows of reconciliation.provider_statements and reconciliation.statement_lines.
pub record StatementRow : Type 0 where
  pub id : ℕ
  pub tenant_id : ℕ
  pub provider_id : Text
  pub external_id : Text

pub record LineRow : Type 0 where
  pub tenant_id : ℕ
  pub statement_id : ℕ
  pub provider_ref : Text
  pub amount : ℤ
  pub asset : Text

-- The tables, with the providers that operations.providers lists for tenants.
pub record IngestDb : Type 0 where
  pub providers : List (Text × ℕ)
  pub statements : List StatementRow
  pub lines : List LineRow
  pub jobs : JobTable
  pub next_statement : ℕ

-- `bad_number` is the SyntaxError of a text that is no number.
pub data IngestError : Type 0 where
  missing_statement_identity provider_tenant_mismatch missing_lines invalid_line : IngestError
  bad_number : IngestError

pub data Ingested : Type 0 where
  duplicate : Ingested
  ingested : ℕ → ℕ → Ingested

abbrev is_finite : Number → Bool
is_finite nan = false
is_finite (cents c) = true

abbrev amount_or : Number → ℤ → ℤ
amount_or nan z = z
amount_or (cents c) z = c

-- The check of a line, which gives the amount.
abbrev line_amount : LineInput → Option Number → Outcome IngestError ℤ
line_amount l none = err bad_number
line_amount l (some nan) = err invalid_line
line_amount l (some (cents c)) = if is_empty l.asset then err invalid_line else ok c

unfoldable pub check_line : LineInput → Outcome IngestError ℤ
unfolding money_number
check_line l =
    if is_empty l.provider_ref then err invalid_line else line_amount l (money_number l.amount)

abbrev then_line :
    LineInput
    → Outcome IngestError ℤ
    → Outcome IngestError (List (LineInput × ℤ))
    → Outcome IngestError (List (LineInput × ℤ))
then_line l (err e) rest = err e
then_line l (ok c) (err e) = err e
then_line l (ok c) (ok more) = ok ((l, c) ∷ more)

-- The loop over the lines.
unfoldable pub check_lines : List LineInput → Outcome IngestError (List (LineInput × ℤ))
unfolding check_line
check_lines [] = ok []
check_lines (l ∷ ls) = then_line l (check_line l) (check_lines ls)

unfoldable pub lines_of : Option (List LineInput) → Outcome IngestError (List (LineInput × ℤ))
unfolding check_lines
lines_of none = err missing_lines
lines_of (some []) = err missing_lines
lines_of (some (l ∷ ls)) = check_lines (l ∷ ls)

-- What is checked before the transaction.
unfoldable pub check_statement :
    StatementBody → ℕ → List (Text × ℕ) → Outcome IngestError (List (LineInput × ℤ))
unfolding lines_of text_eq
check_statement body tenant providers =
    if is_empty body.provider_id || is_empty body.external_id
    then err missing_statement_identity
    else if not (any (λ p. text_eq p.0 body.provider_id && p.1 == tenant) providers)
    then err provider_tenant_mismatch
    else lines_of body.lines

abbrev line_row : ℕ → ℕ → LineInput × ℤ → LineRow
line_row tenant id (l, c) = record {
  tenant_id = tenant;
  statement_id = id;
  provider_ref = l.provider_ref;
  amount = c;
  asset = l.asset;
}

-- The unique key of a statement: its tenant, its provider and its external id.
unfoldable pub is_statement : ℕ → Text → Text → StatementRow → Bool
unfolding text_eq
is_statement tenant provider external s =
    s.tenant_id == tenant && (text_eq s.provider_id provider && text_eq s.external_id external)

-- The transaction: the statement, its lines and the job, or the violation of the unique key.
unfoldable pub insert_statement :
    StatementBody → ℕ → ℕ → List (LineInput × ℤ) → IngestDb → Ingested × IngestDb
unfolding is_statement enqueue_job
insert_statement body tenant now lines db =
    if any (is_statement tenant body.provider_id body.external_id) db.statements
    then (duplicate, db)
    else (
      ingested db.next_statement (length lines),
      record db {
        statements =
            record {
              id = db.next_statement;
              tenant_id = tenant;
              provider_id = body.provider_id;
              external_id = body.external_id;
            }
            ∷ db.statements;
        lines = map (line_row tenant db.next_statement) lines ++ db.lines;
        jobs = (enqueue_job match_statement db.next_statement 0 3 tenant now db.jobs).1;
        next_statement = db.next_statement + 1;
      },
    )

unfoldable pub inserted :
    StatementBody
    → ℕ
    → ℕ
    → IngestDb
    → Outcome IngestError (List (LineInput × ℤ))
    → Outcome IngestError Ingested × IngestDb
unfolding insert_statement
inserted body tenant now db (err e) = (err e, db)
inserted body tenant now db (ok lines) =
    let r = insert_statement body tenant now lines db in (ok r.0, r.1)

-- `ingestStatement`
unfoldable pub ingest_statement :
    StatementBody → ℕ → ℕ → IngestDb → Outcome IngestError Ingested × IngestDb
unfolding inserted check_statement
ingest_statement body tenant now db =
    inserted body tenant now db (check_statement body tenant db.providers)

inserted-again :
    (body : StatementBody) (tenant now later : ℕ) (db : IngestDb)
    (checked : Outcome IngestError (List (LineInput × ℤ))) (r : Ingested)
    → (inserted body tenant now db checked).0 ≡ ok r
    → inserted body tenant later (inserted body tenant now db checked).1 checked
      ≡ (ok duplicate, (inserted body tenant now db checked).1)
unfolding inserted insert_statement is_statement
inserted-again body tenant now later db (err e) r h = cc
inserted-again body tenant now later db (ok lines) r h =
    elim (Bool-cases (any (is_statement tenant body.provider_id body.external_id) db.statements)) [
      | inl seen ↦ rw (seen, seen) refl
      | inr fresh ↦
          rw (fresh, ==_refl tenant, text_eq_refl body.provider_id, text_eq_refl body.external_id)
            refl
    ]

inserted-providers :
    (body : StatementBody) (tenant now : ℕ) (db : IngestDb)
    (checked : Outcome IngestError (List (LineInput × ℤ)))
    → (inserted body tenant now db checked).1.providers ≡ db.providers
unfolding inserted insert_statement
inserted-providers body tenant now db (err e) = refl
inserted-providers body tenant now db (ok lines) =
    elim (Bool-cases (any (is_statement tenant body.provider_id body.external_id) db.statements)) [
      | inl seen ↦ rw seen refl
      | inr fresh ↦ rw fresh refl
    ]

-- A statement that was taken is taken once: when it comes again, at any time, the answer is that
-- it is a duplicate, and no statement, line or job is added.
pub ingest_statement-again :
    (body : StatementBody) (tenant now later : ℕ) (db : IngestDb) (r : Ingested)
    → (ingest_statement body tenant now db).0 ≡ ok r
    → ingest_statement body tenant later (ingest_statement body tenant now db).1
      ≡ (ok duplicate, (ingest_statement body tenant now db).1)
unfolding ingest_statement
ingest_statement-again body tenant now later db r h =
    let checked = check_statement body tenant db.providers in
    rw (inserted-providers body tenant now db checked)
      (inserted-again body tenant now later db checked r h)
