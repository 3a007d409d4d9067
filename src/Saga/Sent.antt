-- ===== src/Saga/Sent.antt =====
-- What a run of the saga adds to the transfers of the adapters.
use stablecoin_treasury.Prelude.{
  ℕ, suc, ◌≡◌, refl, ap, subst, inl, inr, none, List, ◌∷◌, arith, ◌==◌, Bool-cases, Option-cases,
  find,
}
use stablecoin_treasury.Prelude.Outcome.{Outcome, ok, err}
use stablecoin_treasury.Payment.Types.{Payment, Db}
use stablecoin_treasury.Ledger.Types.{Ledger, DebitError}
use stablecoin_treasury.Ledger.Debit.{DebitReply, debit_route}
use stablecoin_treasury.Custody.Adapter.{
  Transfer, AdapterKey, simulated, crash_once_then_idempotent, unknown_adapter, Adapters,
  TransferRequest, has_key, simulated_new, simulated_submit, crash_new, crash_submit,
  submit_transfer,
}
use stablecoin_treasury.Saga.World.{Post, World}
use stablecoin_treasury.Saga.Monad.{Fate, world_of, After, Ends-world}
use stablecoin_treasury.Saga.Run.{Job, Context, Answers}
use stablecoin_treasury.Saga.Steps.{transfer_request}
use stablecoin_treasury.Saga.Settle.{debit_request, debit_answer, debit_statement, execute_saga}
use stablecoin_treasury.Saga.Phases.{Phase, At, Obligations}
use stablecoin_treasury.Saga.PhaseWhole.{execute_saga-Ends}

-- What a run adds to a provider's transfers: nothing, or the first one with the payment's key.
pub data Sent (key : ℕ) (old new : List Transfer) : Type 0 where
  none_sent : new ≡ old → Sent key old new
  one_sent :
      (t : Transfer)
      → t.idempotency_key ≡ key
      → find (has_key key) old ≡ none
      → new ≡ t ∷ old
      → Sent key old new

abbrev SentOnce : ℕ → Adapters → Phase
SentOnce key before d a l posts =
    Sent key before.submissions a.submissions × Sent key before.accepted a.accepted

-- A transfer that is made only where the key is not found.
Sent-again :
    (key : ℕ) (old now : List Transfer) (t : Transfer)
    → t.idempotency_key ≡ key
    → find (has_key key) now ≡ none
    → Sent key old now
    → Sent key old (t ∷ now)
Sent-again key old now t e unsent (none_sent same) =
    one_sent t e (subst (λ ts. find (has_key key) ts ≡ none) same unsent) (ap (λ ts. t ∷ ts) same)
Sent-again key old now t e unsent (one_sent u k _ same) = ground (arith, unsent, same, k)

module _ (answers : Answers) (job : Job) (p : Payment) (before : Adapters) where
  abbrev Once : Phase
  Once = SentOnce job.payment_id before

  simulated-Once :
      (r : TransferRequest) (a : Adapters)
      → r.idempotency_key ≡ job.payment_id
      → Sent job.payment_id before.submissions a.submissions
      → Sent job.payment_id before.accepted a.accepted
      → let b = (simulated_submit r a).1 in
        Sent job.payment_id before.submissions b.submissions
        × Sent job.payment_id before.accepted b.accepted
  unfolding simulated_submit
  simulated-Once r a e h k = elim (Option-cases (find (has_key r.idempotency_key) a.submissions)) [
    | inr (t, there) ↦ rw there (h, k)
    | inl unsent ↦ rw unsent (
      Sent-again job.payment_id before.submissions a.submissions (simulated_new r) e
          (subst (λ key. find (has_key key) a.submissions ≡ none) e unsent) h,
      k,
    )
  ]

  crash-Once :
      (r : TransferRequest) (a : Adapters)
      → r.idempotency_key ≡ job.payment_id
      → Sent job.payment_id before.submissions a.submissions
      → Sent job.payment_id before.accepted a.accepted
      → let b = (crash_submit r a).1 in
        Sent job.payment_id before.submissions b.submissions
        × Sent job.payment_id before.accepted b.accepted
  unfolding crash_submit
  crash-Once r a e h k = elim (Option-cases (find (has_key r.idempotency_key) a.accepted)) [
    | inr (t, there) ↦ rw there (h, k)
    | inl unsent ↦
        let sent =
          Sent-again job.payment_id before.accepted a.accepted (crash_new r) e
            (subst (λ key. find (has_key key) a.accepted ≡ none) e unsent) k in
        elim (Bool-cases (suc a.call_count == 1)) [
          | inl first ↦ rw (unsent, first) (h, sent)
          | inr later ↦ rw (unsent, later) (h, sent)
        ]
  ]

  submit-Once :
      (adapter : AdapterKey) (a : Adapters) (d : Db) (l : Ledger) (s : List Post)
      → Once d a l s
      → Once d (submit_transfer adapter (transfer_request answers job p) a).1 l s
  submit-Once simulated a d l s h = simulated-Once _ a refl h.0 h.1
  submit-Once crash_once_then_idempotent a d l s h = crash-Once _ a refl h.0 h.1
  submit-Once unknown_adapter a d l s h = h

  debit-Once :
      (context : Context) (w : World)
      → At Once w
      → After (λ _. At Once) (At Once) (debit_statement job context p w)
  debit-Once context w h =
      step (debit_route p.source_wallet_id job.tenant_id (debit_request context p) w.ledger)
    where
      step :
          (r : Outcome DebitError DebitReply × Ledger)
          → After (λ _. At Once) (At Once) (debit_answer r.0, record w { ledger = r.1 })
      step (ok _, l) = h
      step (err _, l) = h

  sent_phases : Obligations answers job p Once Once Once Once Once
  sent_phases = record {
    weak0 = λ d a l s h. h;
    weak1 = λ d a l s h. h;
    weak2 = λ d a l s h. h;
    weak3 = λ d a l s h. h;
    fails = λ d a l s h. h;
    submits = λ d a l s adapter h. submit-Once adapter a d l s h;
    persists = λ d a l s ref chain h. h;
    debits_ok = debit-Once;
    journals_ok = λ d a l s h. h;
    match_ok = λ d a l s h. h;
    settles = λ d a l s at h. h;
    logs = λ d a l s rows h. h;
  }

-- A run of the saga, whatever the other services answer and wherever it is cut off, leaves the
-- transfers that each provider has accepted as they were, or it adds one under the payment's
-- key, and only where no transfer had that key.
pub saga_sends_once :
    (answers : Answers) (job : Job) (fates : List Fate) (w : World)
    → let after = (world_of (execute_saga answers job fates w)).adapters in
      Sent job.payment_id w.adapters.submissions after.submissions
      × Sent job.payment_id w.adapters.accepted after.accepted
saga_sends_once answers job fates w = Ends-world _ (execute_saga answers job fates w) (
    execute_saga-Ends answers job (SentOnce job.payment_id w.adapters) w
      (none_sent refl, none_sent refl)
      (λ p _ _.
        (_, _, _, _, sent_phases answers job p w.adapters, (none_sent refl, none_sent refl)))
      fates)
