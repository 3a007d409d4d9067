-- ===== src/Saga/Failure.antt =====
-- A run that fails a payment has debited nothing.
use stablecoin_treasury.Payment.Updated.{status_eq→≡}
use stablecoin_treasury.Prelude.{ℕ, ◌≡◌, refl, sym, ap, ◌∙◌, Option, List}
use stablecoin_treasury.Prelude.Outcome.{Outcome, ok, err}
use stablecoin_treasury.Payment.Types.{Status, executing, failed, Payment, Db}
use stablecoin_treasury.Payment.Settlement.{with_refs, as_settled}
use stablecoin_treasury.Ledger.Types.{Ledger, DebitError}
use stablecoin_treasury.Ledger.Debit.{DebitReply, debit_route}
use stablecoin_treasury.Custody.Adapter.{Adapters}
use stablecoin_treasury.Saga.World.{Post, World}
use stablecoin_treasury.Saga.Monad.{Fate, world_of, After, Ends-world}
use stablecoin_treasury.Saga.Run.{Job, Context, Answers}
use stablecoin_treasury.Saga.Settle.{debit_request, debit_answer, debit_statement, execute_saga}
use stablecoin_treasury.Saga.Phases.{Phase, At, Obligations}
use stablecoin_treasury.Saga.PhaseWhole.{execute_saga-Ends}
use stablecoin_treasury.Saga.Rows.{
  NewRow, untouched, patched, persist_refs-NewRow, settle_payment-NewRow,
}
use stablecoin_treasury.Saga.Safety.{HasStatus, some_injective}

HasStatus-unique :
    (id tenant : ℕ) (s t : Status) (ps : List Payment)
    → HasStatus id tenant s ps
    → HasStatus id tenant t ps
    → s ≡ t
HasStatus-unique id tenant s t ps (p, found, e) (q, found', e') =
    sym e ∙ ap (λ r. r.status) (some_injective _ _ (sym found ∙ found')) ∙ e'

-- If the payment has failed, the ledger is the one that the run began with.
abbrev FailedIsUndebited : ℕ → ℕ → Ledger → Phase
FailedIsUndebited id tenant before d a l posts = HasStatus id tenant failed d.payments → l ≡ before

module _ (answers : Answers) (job : Job) (p : Payment) (before : Ledger) where
  abbrev Running : Phase
  Running d a l s = HasStatus job.payment_id job.tenant_id executing d.payments

  abbrev Undebited : Phase
  Undebited d a l s = Running d a l s × (l ≡ before)

  abbrev End : Phase
  End = FailedIsUndebited job.payment_id job.tenant_id before

  running_not_failed :
      (d : Db) (a : Adapters) (l : Ledger) (s : List Post) → Running d a l s → End d a l s
  running_not_failed d a l s h there =
      cc (HasStatus-unique job.payment_id job.tenant_id executing failed d.payments h there)

  -- The references do not change the status.
  persisted :
      (ref chain : Option ℕ) (ps ps' : List Payment)
      → NewRow job.payment_id job.tenant_id (with_refs ref chain) ps ps'
      → HasStatus job.payment_id job.tenant_id executing ps
      → HasStatus job.payment_id job.tenant_id executing ps'
  persisted ref chain ps ps' (untouched e) (q, found, s) = (q, cc, s)
  persisted ref chain ps ps' (patched old found found') (q, there, s) = (
    with_refs ref chain old,
    found',
    ap (λ r. r.status) (some_injective _ _ (sym found ∙ there)) ∙ s,
  )

  -- The settlement settles, or leaves an executing payment.
  not_failed :
      (at : ℕ) (ps ps' : List Payment)
      → NewRow job.payment_id job.tenant_id (as_settled at) ps ps'
      → HasStatus job.payment_id job.tenant_id executing ps
      → ¬ HasStatus job.payment_id job.tenant_id failed ps'
  not_failed at ps ps' (untouched e) (q, found, s) (r, found', s') = cc (
      HasStatus-unique job.payment_id job.tenant_id executing failed ps' (q, (cc), s)
        (r, found', s'))
  not_failed at ps ps' (patched old found found') h (r, there, s') =
      cc (sym (ap (λ x. x.status) (some_injective _ _ (sym found' ∙ there))), s')

  debited :
      (context : Context) (w : World)
      → At Undebited w
      → After (λ _. At Running) (At End) (debit_statement job context p w)
  debited context w h =
      step (debit_route p.source_wallet_id job.tenant_id (debit_request context p) w.ledger)
    where
      step :
          (r : Outcome DebitError DebitReply × Ledger)
          → After (λ _. At Running) (At End) (debit_answer r.0, record w { ledger = r.1 })
      step (ok _, l) = h.0
      step (err _, l) = running_not_failed w.db w.adapters l w.posts h.0

  failed_phases : Obligations answers job p Undebited Running Running Running End
  failed_phases = record {
    weak0 = λ d a l s h there. h.1;
    weak1 = running_not_failed;
    weak2 = running_not_failed;
    weak3 = running_not_failed;
    fails = λ d a l s h there. h.1;
    submits = λ d a l s adapter h. h;
    persists = λ d a l s ref chain h. (
      persisted ref chain d.payments _
          (persist_refs-NewRow job.payment_id job.tenant_id ref chain d) h.0,
      h.1,
    );
    debits_ok = debited;
    journals_ok = λ d a l s h. h;
    match_ok = λ d a l s h. h;
    settles = λ d a l s at h there. absurd (
        not_failed at d.payments _ (settle_payment-NewRow job.payment_id job.tenant_id at d) h
          there);
    logs = λ d a l s rows h. h;
  }

-- A run of the saga after which the payment is Failed has left the wallet ledger as it was,
-- whatever the other services answer and wherever the run is cut off: a payment that the
-- provider rejects, or that policy blocks, is not debited by that run.
pub failed_never_debited :
    (answers : Answers) (job : Job) (fates : List Fate) (w : World)
    → let after = world_of (execute_saga answers job fates w) in
      HasStatus job.payment_id job.tenant_id failed after.db.payments → after.ledger ≡ w.ledger
failed_never_debited answers job fates w = Ends-world _ (execute_saga answers job fates w) (
    execute_saga-Ends answers job (FailedIsUndebited job.payment_id job.tenant_id w.ledger) w
      (λ _. refl)
      (λ p found running. (
        _,
        _,
        _,
        _,
        failed_phases answers job p w.ledger,
        ((p, found, status_eq→≡ _ _ running), refl),
      ))
      fates)
