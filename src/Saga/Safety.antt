-- ===== src/Saga/Safety.antt =====
-- A payment is settled only after its debit, its journals and its match, it fails only where
-- nothing was debited, and it is sent at most once.
use stablecoin_treasury.Prelude.{
  ℕ, ◌≡◌, refl, sym, ap, subst, ◌∙◌, ◌⊎◌, inl, inr, true, some, List, [], ◌∷◌,
}
use stablecoin_treasury.Prelude.Outcome.{Outcome, ok, err}
use stablecoin_treasury.Payment.Types.{Status, settled, Payment}
use stablecoin_treasury.Payment.Rows.{find_row-id}
use stablecoin_treasury.Payment.Table.{find_row}
use stablecoin_treasury.Payment.Settlement.{with_refs}
use stablecoin_treasury.Ledger.Types.{Ledger, DebitError}
use stablecoin_treasury.Ledger.Debit.{has_transaction, DebitReply, debit_route}
use stablecoin_treasury.Ledger.Route.{debit_route-replied, debit_route-keeps}
use stablecoin_treasury.Saga.World.{Post, journals_posted, match_posted, World}
use stablecoin_treasury.Saga.Monad.{Fate, world_of, After, Ends-world}
use stablecoin_treasury.Saga.Run.{Job, Context, Answers}
use stablecoin_treasury.Saga.Settle.{debit_request, debit_answer, debit_statement, execute_saga}
use stablecoin_treasury.Saga.Phases.{Phase, At, Obligations}
use stablecoin_treasury.Saga.PhaseWhole.{execute_saga-Ends}
use stablecoin_treasury.Saga.Rows.{
  NewRow, untouched, patched, as_failed, fail_payment-NewRow, persist_refs-NewRow,
}

abbrev pub Posted : Post → List Post → Type 0
Posted x [] = ⊥
Posted x (y ∷ ys) = (x ≡ y) ⊎ Posted x ys

-- The status of the payment's row, if it has one.
abbrev pub HasStatus : ℕ → ℕ → Status → List Payment → Type 0
HasStatus id tenant s ps = (p : Payment) × (find_row id tenant ps ≡ some p) × (p.status ≡ s)

-- What settlement stands on: a ledger transaction for the payment, its journals and its match.
abbrev pub Accounted : ℕ → ℕ → Ledger → List Post → Type 0
Accounted id tenant l posts =
    (has_transaction tenant id l.transactions ≡ true)
    × Posted (journals_posted tenant id) posts
    × Posted (match_posted tenant id) posts

-- If the payment is settled, it is accounted for.
abbrev pub SettledIsAccounted : ℕ → ℕ → Phase
SettledIsAccounted id tenant d a l posts =
    HasStatus id tenant settled d.payments → Accounted id tenant l posts

pub some_injective : {A : Type 0} (a b : A) → some a ≡ some b → a ≡ b
some_injective a b e = cc

module _ (id tenant : ℕ) (patch : Payment → Payment)
    (other : (p : Payment) → (patch p).status ≡ settled → p.status ≡ settled)
    (ps ps' : List Payment) where
  -- An update that settles nothing.
  NewRow-unsettled :
      NewRow id tenant patch ps ps'
      → HasStatus id tenant settled ps'
      → HasStatus id tenant settled ps
  NewRow-unsettled (untouched e) (p, found, s) = (p, (cc), s)
  NewRow-unsettled (patched old found found') (p, there, s) =
      (old, found, other old (ap (λ q. q.status) (some_injective _ _ (sym found' ∙ there)) ∙ s))

module _ (answers : Answers) (job : Job) (p : Payment) (same : p.id ≡ job.payment_id) where
  abbrev Base : Phase
  Base = SettledIsAccounted job.payment_id job.tenant_id

  abbrev Debited : Phase
  Debited d a l s = Base d a l s × (has_transaction job.tenant_id p.id l.transactions ≡ true)

  abbrev Journaled : Phase
  Journaled d a l s = Debited d a l s × Posted (journals_posted job.tenant_id p.id) s

  abbrev Matched : Phase
  Matched d a l s = Journaled d a l s × Posted (match_posted job.tenant_id p.id) s

  -- The debit.
  debit-accounted :
      (context : Context) (w : World)
      → At Base w
      → After (λ _. At Debited) (At Base) (debit_statement job context p w)
  debit-accounted context w h =
      step (debit_route p.source_wallet_id job.tenant_id (debit_request context p) w.ledger) refl
    where
      kept :
          (t key : ℕ)
          → has_transaction t key w.ledger.transactions ≡ true
          → has_transaction t key
              (debit_route p.source_wallet_id job.tenant_id
                (debit_request context p)
                w.ledger).1.transactions
            ≡ true
      kept = debit_route-keeps p.source_wallet_id job.tenant_id (debit_request context p) w.ledger

      step :
          (r : Outcome DebitError DebitReply × Ledger)
          → debit_route p.source_wallet_id job.tenant_id (debit_request context p) w.ledger ≡ r
          → After (λ _. At Debited) (At Base) (debit_answer r.0, record w { ledger = r.1 })
      step (ok reply, l) e = (
        (λ there.
            let (t, j, m) = h there in
            (
              subst (λ x. has_transaction job.tenant_id job.payment_id x.1.transactions ≡ true) e
                  (kept _ _ t),
              j,
              m,
            )),
        subst (λ x. has_transaction job.tenant_id p.id x.1.transactions ≡ true) e
            (debit_route-replied p.source_wallet_id job.tenant_id p.id (debit_request context p)
              w.ledger reply refl (ap (λ x. x.0) e)),
      )
      step (err _, l) e = λ there.
          let (t, j, m) = h there in
          (
            subst (λ x. has_transaction job.tenant_id job.payment_id x.1.transactions ≡ true) e
                (kept _ _ t),
            j,
            m,
          )

  posted_more :
      (x : Post) (l : Ledger) (s : List Post)
      → Accounted job.payment_id job.tenant_id l s
      → Accounted job.payment_id job.tenant_id l (x ∷ s)
  posted_more x l s (t, j, m) = (t, inr j, inr m)

  settled_phases : Obligations answers job p Base Debited Journaled Matched Base
  settled_phases = record {
    weak0 = λ d a l s h. h;
    weak1 = λ d a l s h. h.0;
    weak2 = λ d a l s h. h.0.0;
    weak3 = λ d a l s h. h.0.0.0;
    fails = λ d a l s h there. h (
        NewRow-unsettled job.payment_id job.tenant_id as_failed (λ q e. cc) d.payments _
          (fail_payment-NewRow job.payment_id job.tenant_id d) there);
    submits = λ d a l s adapter h. h;
    persists = λ d a l s ref chain h there. h (
        NewRow-unsettled job.payment_id job.tenant_id (with_refs ref chain) (λ q e. e) d.payments _
          (persist_refs-NewRow job.payment_id job.tenant_id ref chain d) there);
    debits_ok = debit-accounted;
    journals_ok = λ d a l s h. (((λ there. posted_more _ l s (h.0 there)), h.1), inl refl);
    match_ok =
        λ d a l s h. ((((λ there. posted_more _ l s (h.0.0 there)), h.0.1), inr h.1), inl refl);
    settles = λ d a l s at h there. rw (← same) (h.0.0.1, h.0.1, h.1);
    logs = λ d a l s rows h. h;
  }

-- Whatever the other services answer and wherever a run of the saga is cut off (a statement or
-- its answer lost, a crash), it keeps this: if the payment is settled, the wallet ledger has a
-- transaction under the payment's debit key, and the accounting service and the reconciliation
-- service have accepted its journals and its match.
pub settled_after_debit :
    (answers : Answers) (job : Job) (fates : List Fate) (w : World)
    → (HasStatus job.payment_id job.tenant_id settled w.db.payments
        → Accounted job.payment_id job.tenant_id w.ledger w.posts)
    → let after = world_of (execute_saga answers job fates w) in
      HasStatus job.payment_id job.tenant_id settled after.db.payments
      → Accounted job.payment_id job.tenant_id after.ledger after.posts
settled_after_debit answers job fates w h = Ends-world _ (execute_saga answers job fates w) (
    execute_saga-Ends answers job (SettledIsAccounted job.payment_id job.tenant_id) w h
      (λ p found _. (
        _,
        _,
        _,
        _,
        settled_phases answers job p (find_row-id job.payment_id job.tenant_id w.db.payments found),
        h,
      ))
      fates)
