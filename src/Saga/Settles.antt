-- ===== src/Saga/Settles.antt =====
-- An undisturbed run of the saga settles the payment.
use stablecoin_treasury.Prelude.{◌≡◌, refl, inl, inr, sym, subst, true, List, false}
use stablecoin_treasury.Prelude.Outcome.{Outcome, ok}
use stablecoin_treasury.Payment.Types.{executing, settled, Payment, clear, status_eq}
use stablecoin_treasury.Payment.Table.{transition_allowed}
use stablecoin_treasury.Payment.Settlement.{as_settled, settle_payment}
use stablecoin_treasury.Ledger.Types.{Ledger, DebitError}
use stablecoin_treasury.Ledger.Debit.{DebitReply, debit_route}
use stablecoin_treasury.Saga.World.{
  ledger_debit, journal_creation, reconciliation, settlement, started, success, journals_posted,
  match_posted, World, policy_check, provider_submission, Attempt,
}
use stablecoin_treasury.Saga.Monad.{Fate}
use stablecoin_treasury.Saga.Complete.{
  Completes, Succeeds, Completes-then, Completes-statement, Undisturbed, Returned,
}
use stablecoin_treasury.Saga.Run.{
  Job, Context, Answers, on_db, insert_attempt, record_attempt, answered, read_payment,
}
use stablecoin_treasury.Saga.Settle.{
  debit_request, debit_answer, debit_statement, post_statement, settled_at_of, audit_settled,
  settle, finish, when_provided, when_allowed, run_payment, execute_saga, run_executing,
}
use stablecoin_treasury.Saga.Phases.{Phase, At}
use stablecoin_treasury.Saga.Safety.{Posted, HasStatus}
use stablecoin_treasury.Saga.Submits.{Sent, SentBy, Ready, provide-Completes}
use stablecoin_treasury.Ledger.Debit.{DebitReply, debit_route}
use stablecoin_treasury.Custody.Adapter.{Transfer, AdapterKey}
use stablecoin_treasury.Custody.Breaker.{Breaker}
use stablecoin_treasury.Saga.Steps.{check_policy, Provided, provided, gave_up}
use stablecoin_treasury.Saga.Liveness.{
  update-RowIs, attempted-Completes, on_db-Succeeds, reads-Completes,
}

module _ (answers : Answers) (job : Job) (context : Context) (p : Payment) (l0 : Ledger) where
  abbrev pub debit_result : Outcome DebitError DebitReply × Ledger
  debit_result = debit_route p.source_wallet_id job.tenant_id (debit_request context p) l0

  -- What holds after the debit and after the posts.
  abbrev Debited : Phase
  Debited d a l s =
      HasStatus job.payment_id job.tenant_id executing d.payments × (l ≡ debit_result.1)

  abbrev Journaled : Phase
  Journaled d a l s = Debited d a l s × Posted (journals_posted job.tenant_id p.id) s

  abbrev Matched : Phase
  Matched d a l s = Journaled d a l s × Posted (match_posted job.tenant_id p.id) s

  -- The payment is settled, debited, journaled and matched.
  abbrev pub FullySettled : Phase
  FullySettled d a l s =
      HasStatus job.payment_id job.tenant_id settled d.payments
      × (l ≡ debit_result.1)
      × Posted (journals_posted job.tenant_id p.id) s
      × Posted (match_posted job.tenant_id p.id) s

  settle_statement-Succeeds :
      (w : World)
      → At Matched w
      → Succeeds
          (λ _. At FullySettled)
          (on_db
            (settle_payment job.payment_id job.tenant_id (settled_at_of p.settled_at answers.now))
            w)
  unfolding settle_payment transition_allowed
  settle_statement-Succeeds w h =
      let row = h.0.0.0 in
      let at = settled_at_of p.settled_at answers.now in
      on_db-Succeeds job.payment_id job.tenant_id (as_settled at row.0) w
        (settle_payment job.payment_id job.tenant_id at w.db) FullySettled
        (update-RowIs job.payment_id job.tenant_id (as_settled at) (λ q k. k) w.db row.0 row.1
          (rw row.2 refl))
        (λ d found. ((as_settled at row.0, found, refl), h.0.0.1, h.0.1, h.1))

  settle-Completes : Completes 4 (At Matched) (settle answers job p) 0 (λ _. At FullySettled)
  unfolding settle record_attempt
  settle-Completes =
      Completes-then _ _ _ _ _
        (Completes-statement (At Matched) (λ _. At Matched) 3
          (insert_attempt job settlement started) (λ w h. h))
        _ _ _
        (λ _.
          Completes-then _ _ _ _ _
            (Completes-statement (At Matched) (λ _. At FullySettled) 2 _ settle_statement-Succeeds)
            _ _ _
            (λ _.
              Completes-then _ _ _ _ _
                (Completes-statement (At FullySettled) (λ _. At FullySettled) 1
                  (insert_attempt job settlement success) (λ w h. h))
                _ _ _
                (λ _.
                  Completes-statement (At FullySettled) (λ _. At FullySettled) 0
                    (audit_settled job p) (λ w h. h))))

  module _ (accepts : debit_answer debit_result.0 ≡ ok tt) (journals : answers.journals ≡ ok tt)
      (matched : answers.matched ≡ ok tt) where
    finish-Completes :
        Completes 13 (At (Sent job l0)) (finish answers job context p) 0 (λ _. At FullySettled)
    unfolding finish
    finish-Completes =
        Completes-then _ _ _ _ _
          (attempted-Completes job ledger_debit (debit_statement job context p) 10 (Sent job l0)
            Debited (λ w h. rw (h.1, accepts) (h.0, refl)))
          _ _ _
          (λ _.
            Completes-then _ _ _ _ _
              (attempted-Completes job journal_creation
                (post_statement answers.journals (journals_posted job.tenant_id p.id)) 7 Debited
                Journaled (λ w h. rw journals (h, inl refl)))
              _ _ _
              (λ _.
                Completes-then _ _ _ _ _
                  (attempted-Completes job reconciliation
                    (post_statement answers.matched (match_posted job.tenant_id p.id)) 4 Journaled
                    Matched (λ w h. rw matched ((h.0, inr h.1), inl refl)))
                  _ _ _ (λ _. settle-Completes)))

    when_provided-Completes :
        (r : Provided)
        → Completes 14
            (SentBy job l0 r)
            (when_provided answers job context p r)
            0
            (λ _. At FullySettled)
    unfolding record_attempt
    when_provided-Completes gave_up = λ n w free h. absurd h
    when_provided-Completes (provided ref chain) =
        Completes-then _ _ _ _ _
          (Completes-statement (At (Sent job l0)) (λ _. At (Sent job l0)) 13
            (insert_attempt job provider_submission success) (λ w h. h))
          _ _ _ (λ _. finish-Completes)

-- A policy check that is clear.
check_policy-Completes :
    (answers : Answers) (job : Job) (P : World → Type 0)
    → answers.evaluation ≡ ok clear
    → ((w : World) (a : List Attempt) → P w → P (record w { attempts = a }))
    → Completes 24 P (check_policy answers job) 21 (λ r w. (r ≡ true) × P w)
unfolding check_policy record_attempt
check_policy-Completes answers job P allows stable =
    Completes-then _ _ _ _ _
      (Completes-statement P (λ _. P) 23 (insert_attempt job policy_check started)
        (λ w h. stable w _ h))
      _ _ _
      (λ _.
        reads-Completes (answered answers.evaluation) clear 22 21 P _ _ (λ w h. rw allows refl)
          (Completes-then _ _ _ _ _
            (Completes-statement P (λ _. P) 21 (insert_attempt job policy_check success)
              (λ w h. stable w _ h))
            _ _ _ (λ _ n w free h. (free, (refl, h)))))

executing_runs :
    (answers : Answers) (job : Job) (p : Payment)
    → p.status ≡ executing
    → run_payment answers job p ≡ run_executing answers job p
executing_runs answers job p h =
    let unsettled : status_eq p.status settled ≡ false = rw h refl in
    let runs_on : status_eq p.status executing ≡ true = rw h refl in rw (unsettled, runs_on) refl

-- A run of the saga, of which the next 26 statements run, for a payment that is Executing, returns
-- with the payment Settled, the ledger as the wallet service's debit leaves it, and the journals
-- and the match posted: if the context is found, the policy is clear, the provider has an adapter
-- that answers and a breaker that lets the call through, and the wallet, the journals and the
-- matching accept. The submission may be absent, refused or accepted already.
pub saga_settles :
    (answers : Answers) (job : Job) (n : List Fate) (w : World) (context : Context) (p : Payment)
    (adapter : AdapterKey) (gate : Breaker) (transfer : Transfer)
    → Undisturbed 26 n
    → p.status ≡ executing
    → Ready answers job context p w.ledger adapter gate transfer w
    → answers.context ≡ ok context
    → answers.evaluation ≡ ok clear
    → debit_answer (debit_result answers job context p w.ledger).0 ≡ ok tt
    → answers.journals ≡ ok tt
    → answers.matched ≡ ok tt
    → Returned 0
        (λ _. At (FullySettled answers job context p w.ledger))
        (execute_saga answers job n w)
unfolding execute_saga
saga_settles answers job n w context p adapter gate transfer free runs_on ready known allows accepts
      journals matched =
    let Here = Ready answers job context p w.ledger adapter gate transfer in
    let Settled = At (FullySettled answers job context p w.ledger) in
    let provides : Completes 21 Here (when_allowed answers job context p true) 0 (λ _. Settled) =
      Completes-then _ _ _ _ _
        (provide-Completes answers job context p w.ledger adapter gate transfer runs_on) _ _ _
        (when_provided-Completes answers job context p w.ledger accepts journals matched) in
    let checks =
      Completes-then _ _ _ _ _ (check_policy-Completes answers job Here allows (λ v a h. h)) 0
        (when_allowed answers job context p) (λ _. Settled)
        (λ r k v l h.
          subst (λ b. Returned 0 (λ _. Settled) (when_allowed answers job context p b k v))
            (sym h.0) (provides k v l h.1)) in
    let executes : Completes 25 Here (run_payment answers job p) 0 (λ _. Settled) =
      subst (λ m. Completes 25 Here m 0 (λ _. Settled)) (sym (executing_runs answers job p runs_on))
        (reads-Completes (answered answers.context) context 24 0 Here _ (λ _. Settled)
          (λ v h. rw known refl) checks) in
    reads-Completes (read_payment job) p 25 0 Here (run_payment answers job) (λ _. Settled)
      (λ v h. rw h.0 refl) executes n w free ready
