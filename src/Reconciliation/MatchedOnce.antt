-- ===== src/Reconciliation/MatchedOnce.antt =====
-- The matcher keeps at most one Matched row for a payment.
use Prim.Native.String.{String}
use stablecoin_treasury.Prelude.{
  ℕ, ◌≤◌, ◌≡◌, refl, false, List, [], ◌∷◌, arith, length, select, any, ◌+◌, subst, inl, inr, ◌&&◌,
  ◌||◌, Option, none, some, ◌==◌, ==_iff, Bool-cases,
}
use stablecoin_treasury.Reconciliation.Matching.{
  Issue, is_matched, Subject, ReconciliationRow, Category, Matching, issue_eq, open_exception,
  is_matched_row, insert_matched, Line, duplicate_line, fee_differs, amount_differs,
  no_matching_payment, missing_from_statement, of_payment, Statement, SettledPayment, subject_eq,
  ref_eq, mark_matched, is_matched_line, match_exact, match_guess, match_other, match_line,
  match_lines, is_absent, missing_payments, match_period, new_run, match_statement,
}

-- How many Matched rows a payment has.
unfoldable pub matched_rows : ℕ → List ReconciliationRow → ℕ
matched_rows id rows = length (select (is_matched_row id) rows)

unmatched-none :
    (id : ℕ) (rows : List ReconciliationRow)
    → any (is_matched_row id) rows ≡ false
    → length (select (is_matched_row id) rows) ≡ 0
unmatched-none id [] h = refl
unmatched-none id (r ∷ rs) h = ground (arith, unmatched-none id rs)

insert_matched-once :
    (id other amount : ℕ) (asset : String) (rows : List ReconciliationRow)
    → matched_rows id rows ≤ 1
    → matched_rows id (insert_matched other amount asset rows) ≤ 1
unfolding matched_rows insert_matched
insert_matched-once id other amount asset rows h =
    elim (Bool-cases (any (is_matched_row other) rows)) [
      | inl there ↦ simp there h
      | inr new ↦ elim (Bool-cases (other == id)) [
        | inl same ↦
            let zero_rows =
              subst (λ k. length (select (is_matched_row k) rows) ≡ 0) ((==_iff other id).0 same)
                (unmatched-none other rows new) in
            simp (new, same, zero_rows) (omega arith)
        | inr another ↦ simp (new, another) h
      ]
    ]

open_exception-once :
    (id : ℕ) (subject : Subject) (issue : Issue) (amount : ℕ) (asset : String) (category : Category)
    (m : Matching)
    → issue_eq issue is_matched ≡ false
    → matched_rows id m.rows ≤ 1
    → matched_rows id (open_exception subject issue amount asset category m).rows ≤ 1
unfolding matched_rows open_exception
open_exception-once id subject issue amount asset category m other h =
    elim (Bool-cases
      (any (λ r. subject_eq r.subject subject && (issue_eq r.issue issue && r.is_open)) m.rows)) [
        | inl there ↦ simp there h
        | inr new ↦ elim (Bool-cases (subject_eq subject (of_payment id))) [
          | inl mine ↦ simp (new, mine, other) h
          | inr another ↦ simp (new, another) h
        ]
      ]

module _ (id : ℕ) where
  Once : Matching → Type 0
  Once m = matched_rows id m.rows ≤ 1

  exact-once :
      (line : Line) (p : SettledPayment) (m : Matching) → Once m → Once (match_exact line p m)
  unfolding Once match_exact mark_matched
  exact-once line p m h = elim (Bool-cases (line.amount == p.amount)) [
    | inl equal ↦ simp equal (insert_matched-once id p.id line.amount line.asset m.rows h)
    | inr differs ↦
        elim (Bool-cases (line.amount == p.amount + p.fee || line.amount + p.fee == p.amount)) [
          | inl fee ↦ simp (differs, fee) (open_exception-once id _ fee_differs _ _ _ _ refl h)
          | inr other ↦
              simp (differs, other) (open_exception-once id _ amount_differs _ _ _ _ refl h)
        ]
  ]

  guess-once :
      (line : Line) (o : Option SettledPayment) (m : Matching)
      → Once m
      → Once (match_guess line o m)
  unfolding Once mark_matched
  guess-once line (some p) m h = insert_matched-once id p.id line.amount line.asset m.rows h
  guess-once line none m h = open_exception-once id _ no_matching_payment _ _ _ _ refl h

  other-once :
      (line : Line) (payments : List SettledPayment) (m : Matching) (o : Option SettledPayment)
      → Once m
      → Once (match_other line payments m o)
  other-once line payments m (some p) h = exact-once line p m h
  other-once line payments m none h = guess-once line _ m h

  line-once :
      (payments : List SettledPayment) (line : Line) (m : Matching)
      → Once m
      → Once (match_line payments line m)
  unfolding Once match_line
  line-once payments line m h =
      elim (Bool-cases (
        any (is_matched_line line.provider_ref) m.lines
        || any (ref_eq line.provider_ref) m.matched_refs)) [
          | inl again ↦ simp again (open_exception-once id _ duplicate_line _ _ _ _ refl h)
          | inr fresh ↦ simp fresh (other-once line payments m _ h)
        ]

  lines-once :
      (payments : List SettledPayment) (lines : List Line) (m : Matching)
      → Once m
      → Once (match_lines payments lines m)
  unfolding match_lines
  lines-once payments [] m h = h
  lines-once payments (l ∷ ls) m h = lines-once payments ls _ (line-once payments l m h)

  missing-once :
      (start end : ℕ) (refs : List (Option ℕ)) (payments : List SettledPayment) (m : Matching)
      → Once m
      → Once (missing_payments start end refs payments m)
  unfolding Once missing_payments
  missing-once start end refs [] m h = h
  missing-once start end refs (p ∷ ps) m h = elim (Bool-cases (is_absent start end refs p)) [
    | inl out ↦ simp out (
        missing-once start end refs ps _
          (open_exception-once id _ missing_from_statement _ _ _ _ refl h))
    | inr fine ↦ simp fine (missing-once start end refs ps m h)
  ]

  period-once :
      (statement : Statement) (payments : List SettledPayment) (m : Matching) (o : Option (ℕ × ℕ))
      → Once m
      → Once (match_period statement payments m o)
  period-once statement payments m none h = h
  period-once statement payments m (some (start, end)) h = missing-once start end _ payments m h

-- Matching a statement, whatever its lines and the payments are, leaves a payment that had at
-- most one Matched row with at most one.
pub match_statement-once :
    (id : ℕ) (statement : Statement) (lines : List Line) (payments : List SettledPayment)
    (m : Matching)
    → matched_rows id m.rows ≤ 1
    → matched_rows id (match_statement statement lines payments m).rows ≤ 1
unfolding match_statement Once
match_statement-once id statement lines payments m h =
    period-once id statement payments _ statement.period
      (lines-once id payments lines (new_run m) h)
