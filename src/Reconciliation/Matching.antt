-- ===== src/Reconciliation/Matching.antt =====
-- `matchStatement`, on the rows of one tenant. An empty provider reference is `none`. The
-- payments are what the payment service answers. `byCategory` is the list of the categories.
use Prim.Native.String.{String}
use text.Mathlib.Text.{◌==◌ as str_eq}
use stablecoin_treasury.Prelude.{
  ℕ, suc, Bool, true, false, ◌&&◌, Option, none, some, List, [], ◌∷◌, leb, ◌==◌, if◌then◌else◌, any,
  ◌+◌, ◌-◌, ◌/◌, not, ◌||◌, map, is_some, find, select,
}

pub data MatchStatus : Type 0 where
  unmatched matched exception : MatchStatus

-- A row of reconciliation.statement_lines; the confidence is in hundredths.
pub record Line : Type 0 where
  pub id : ℕ
  pub statement_id : ℕ
  pub provider_ref : Option ℕ
  pub amount : ℕ
  pub asset : String
  pub occurred_at : Option ℕ
  pub match_status : MatchStatus
  pub match_confidence : Option ℕ

pub data Issue : Type 0 where
  is_matched duplicate_line fee_differs amount_differs : Issue
  no_matching_payment missing_from_statement : Issue

-- `payment_id` of a reconciliation row: a payment's id, or `stmt:` and a line's.
pub data Subject : Type 0 where
  of_payment of_line : ℕ → Subject

pub record ReconciliationRow : Type 0 where
  pub subject : Subject
  pub issue : Issue
  pub amount : ℕ
  pub asset : String
  pub is_open : Bool

pub data Category : Type 0 where
  exact heuristic duplicate fee_mismatch amount_mismatch : Category
  missing_ours missing_theirs : Category

pub record Statement : Type 0 where
  pub id : ℕ
  pub period : Option (ℕ × ℕ)

pub record SettledPayment : Type 0 where
  pub id : ℕ
  pub provider_ref : Option ℕ
  pub amount : ℕ
  pub fee : ℕ
  pub asset : String
  pub is_settled : Bool
  pub settled_at : Option ℕ

-- The tables, `summary` and `matchedRefs`.
pub record Matching : Type 0 where
  pub lines : List Line
  pub rows : List ReconciliationRow
  pub matched_count : ℕ
  pub exceptions : ℕ
  pub categories : List Category
  pub matched_refs : List (Option ℕ)

abbrev issue_code : Issue → ℕ
issue_code is_matched = 0
issue_code duplicate_line = 1
issue_code fee_differs = 2
issue_code amount_differs = 3
issue_code no_matching_payment = 4
issue_code missing_from_statement = 5

abbrev pub issue_eq : Issue → Issue → Bool
issue_eq a b = issue_code a == issue_code b

abbrev pub subject_eq : Subject → Subject → Bool
subject_eq (of_payment a) (of_payment b) = a == b
subject_eq (of_line a) (of_line b) = a == b
subject_eq (of_payment a) (of_line b) = false
subject_eq (of_line a) (of_payment b) = false

abbrev pub ref_eq : Option ℕ → Option ℕ → Bool
ref_eq none none = true
ref_eq (some a) (some b) = a == b
ref_eq none (some b) = false
ref_eq (some a) none = false

-- `setLine`
unfoldable pub set_line : ℕ → MatchStatus → Option ℕ → List Line → List Line
set_line id status confidence [] = []
set_line id status confidence (l ∷ ls) =
    let rest = set_line id status confidence ls in
    if l.id == id
    then record l { match_status = status; match_confidence = confidence } ∷ rest
    else l ∷ rest

-- `openException`
unfoldable pub open_exception : Subject → Issue → ℕ → String → Category → Matching → Matching
open_exception subject issue amount asset category m =
    if any (λ r. subject_eq r.subject subject && (issue_eq r.issue issue && r.is_open)) m.rows
    then m
    else record m {
      rows =
          record {
            subject = subject;
            issue = issue;
            amount = amount;
            asset = asset;
            is_open = true;
          }
          ∷ m.rows;
      exceptions = suc m.exceptions;
      categories = category ∷ m.categories;
    }

abbrev pub is_matched_row : ℕ → ReconciliationRow → Bool
is_matched_row id r = subject_eq r.subject (of_payment id) && issue_eq r.issue is_matched

-- The Matched row of a payment, if it has none.
unfoldable pub insert_matched : ℕ → ℕ → String → List ReconciliationRow → List ReconciliationRow
insert_matched id amount asset rows =
    if any (is_matched_row id) rows
    then rows
    else record {
      subject = of_payment id;
      issue = is_matched;
      amount = amount;
      asset = asset;
      is_open = false;
    }
      ∷ rows

-- `markMatched`
unfoldable pub mark_matched : Line → SettledPayment → ℕ → Matching → Matching
mark_matched line p confidence m = record m {
  rows = insert_matched p.id line.amount line.asset m.rows;
  lines = set_line line.id matched (some confidence) m.lines;
  matched_count = suc m.matched_count;
  categories = (if leb 100 confidence then exact else heuristic) ∷ m.categories;
}

abbrev pub except_line : Line → Matching → Matching
except_line line m = record m { lines = set_line line.id exception none m.lines }

abbrev pub remember : Option ℕ → Matching → Matching
remember ref m = record m { matched_refs = ref ∷ m.matched_refs }

abbrev pub is_matched_line : Option ℕ → Line → Bool
is_matched_line ref l =
    ref_eq l.provider_ref ref && elim (l.match_status) [ matched ↦ true | _ ↦ false ]

-- `byProviderRef.get`: of two payments with one reference, the map keeps the last.
unfoldable pub by_provider_ref : Option ℕ → List SettledPayment → Option SettledPayment
by_provider_ref ref [] = none
by_provider_ref none (p ∷ ps) = none
by_provider_ref (some r) (p ∷ ps) = elim (by_provider_ref (some r) ps) [
  | some q ↦ some q
  | none ↦ if ref_eq p.provider_ref (some r) then some p else none
]

-- The UTC day of a time in milliseconds.
abbrev same_day : Option ℕ → Option ℕ → Bool
same_day (some a) (some b) = a / 86400000 == b / 86400000
same_day _ _ = false

abbrev pub is_heuristic : Line → List (Option ℕ) → SettledPayment → Bool
is_heuristic line refs p =
    p.is_settled
    && (str_eq p.asset line.asset
        && (p.amount == line.amount
            && (not (any (ref_eq p.provider_ref) refs) && same_day p.settled_at line.occurred_at)))

abbrev distance : ℕ → ℕ → ℕ
distance a b = a - b + (b - a)

-- A line whose reference is a payment's.
unfoldable pub match_exact : Line → SettledPayment → Matching → Matching
match_exact line p m =
    if line.amount == p.amount
    then remember line.provider_ref (mark_matched line p 100 m)
    else if line.amount == p.amount + p.fee || line.amount + p.fee == p.amount
    then open_exception (of_payment p.id) fee_differs (distance line.amount p.amount) line.asset
        fee_mismatch (except_line line m)
    else open_exception (of_payment p.id) amount_differs line.amount line.asset amount_mismatch
        (except_line line m)

abbrev pub match_guess : Line → Option SettledPayment → Matching → Matching
match_guess line (some p) m = remember p.provider_ref (mark_matched line p 70 m)
match_guess line none m =
    open_exception (of_line line.id) no_matching_payment line.amount line.asset missing_ours
      (except_line line m)

abbrev pub match_other : Line → List SettledPayment → Matching → Option SettledPayment → Matching
match_other line payments m (some p) = match_exact line p m
match_other line payments m none =
    match_guess line (find (is_heuristic line m.matched_refs) payments) m

-- The body of the loop over the lines.
unfoldable pub match_line : List SettledPayment → Line → Matching → Matching
match_line payments line m =
    if any (is_matched_line line.provider_ref) m.lines
      || any (ref_eq line.provider_ref) m.matched_refs
    then open_exception (of_line line.id) duplicate_line line.amount line.asset duplicate
        (except_line line m)
    else match_other line payments m (by_provider_ref line.provider_ref payments)

unfoldable pub match_lines : List SettledPayment → List Line → Matching → Matching
match_lines payments [] m = m
match_lines payments (l ∷ ls) m = match_lines payments ls (match_line payments l m)

abbrev in_period : ℕ → ℕ → Option ℕ → Bool
in_period start end none = false
in_period start end (some at) = leb start at && leb at end

abbrev pub is_absent : ℕ → ℕ → List (Option ℕ) → SettledPayment → Bool
is_absent start end refs p =
    p.is_settled
    && (is_some p.provider_ref
        && (in_period start end p.settled_at && not (any (ref_eq p.provider_ref) refs)))

-- The loop over the payments of the period.
unfoldable pub missing_payments :
    ℕ → ℕ → List (Option ℕ) → List SettledPayment → Matching → Matching
missing_payments start end refs [] m = m
missing_payments start end refs (p ∷ ps) m = missing_payments start end refs ps (
    if is_absent start end refs p
    then open_exception (of_payment p.id) missing_from_statement p.amount p.asset missing_theirs m
    else m)

abbrev pub match_period : Statement → List SettledPayment → Matching → Option (ℕ × ℕ) → Matching
match_period statement payments m none = m
match_period statement payments m (some (start, end)) =
    missing_payments start end
      (map (λ l. l.provider_ref) (select (λ l. l.statement_id == statement.id) m.lines)) payments m

-- The lines to look at, in the order of their references, which the database gives.
abbrev pub is_examined : ℕ → Line → Bool
is_examined statement l =
    l.statement_id == statement && elim (l.match_status) [ matched ↦ false | _ ↦ true ]

abbrev pub new_run : Matching → Matching
new_run m = record m { matched_count = 0; exceptions = 0; categories = []; matched_refs = [] }

-- `matchStatement`, for a statement that is found. `lines` are its examined lines, sorted.
unfoldable pub match_statement : Statement → List Line → List SettledPayment → Matching → Matching
match_statement statement lines payments m =
    let done = match_lines payments lines (new_run m) in
    match_period statement payments done statement.period
