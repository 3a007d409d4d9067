-- ===== src/Saga/Submits.antt =====
-- The provider has the transfer after an undisturbed step 2 of the saga.
use stablecoin_treasury.Prelude.{
  ℕ, suc, ◌≡◌, refl, inl, inr, Bool, true, Option, none, some, List, [], ◌∷◌, ==_refl, Bool-cases,
  find, any,
}
use stablecoin_treasury.Payment.Types.{executing, Payment}
use stablecoin_treasury.Payment.Table.{find_row}
use stablecoin_treasury.Payment.Settlement.{with_refs, persist_refs}
use stablecoin_treasury.Ledger.Types.{Ledger}
use stablecoin_treasury.Custody.Adapter.{Transfer, AdapterKey, resolve_adapter, submit_transfer}
use stablecoin_treasury.Custody.Breaker.{Breaker, enter_breaker}
use stablecoin_treasury.Saga.World.{
  SubmissionStatus, not_sent, submitted, refused, Submission, provider_submission, started, World,
  get_breaker,
}
use stablecoin_treasury.Saga.Complete.{
  Completes, Completes-then, Completes-catch, Completes-statement, Completes-return,
}
use stablecoin_treasury.Saga.Run.{
  Job, Context, Answers, on_db, insert_attempt, record_attempt, is_submission, insert_submission,
  select_submission, ensure_provider_submission, update_submission, as_submitted,
}
use stablecoin_treasury.Saga.Steps.{
  resolve_statement, transfer_request, submit_statement, submit, Provided, provided, gave_up,
  submit_or_fail, resume_with, persist, provide_with, provide,
}
use stablecoin_treasury.Saga.Phases.{Phase, At}
use stablecoin_treasury.Saga.Safety.{HasStatus}
use stablecoin_treasury.Saga.Liveness.{
  update-RowIs, through_breaker-Completes, on_db-Succeeds, reads-Completes,
}

-- The payment is Executing and nothing was debited yet.
abbrev pub Sent : Job → Ledger → Phase
Sent job l0 d a l s = HasStatus job.payment_id job.tenant_id executing d.payments × (l ≡ l0)

abbrev pub SentBy : Job → Ledger → Provided → World → Type 0
SentBy job l0 (provided ref chain) w = At (Sent job l0) w
SentBy job l0 gave_up w = ⊥

find-any {ℓ} :
    {A : Type ℓ} (f : A → Bool) (xs : List A) → any f xs ≡ true → (x : A) × (find f xs ≡ some x)
find-any f [] h = cc
find-any f (x ∷ xs) h = elim (Bool-cases (f x)) [
  | inl e ↦ (x, rw e refl)
  | inr e ↦ let rest = find-any f xs (rw e at h) in (rest.0, rw e rest.1)
]

-- After the INSERT there is a submission of the payment.
inserted_found :
    (job : Job) (provider_id : ℕ) (w : World)
    → (s : Submission) × (find
          (is_submission job)
          (insert_submission job provider_id w).1.submissions
        ≡ some s)
inserted_found job provider_id w = elim (Bool-cases (any (is_submission job) w.submissions)) [
  | inl there ↦ rw there (find-any (is_submission job) w.submissions there)
  | inr missing ↦ rw (missing, ==_refl job.tenant_id, ==_refl job.payment_id) (_, refl)
]

module _ (answers : Answers) (job : Job) (context : Context) (p : Payment) (l0 : Ledger)
    (adapter : AdapterKey) (gate : Breaker) (transfer : Transfer) where
  -- The payment's row and the wallets are as given, the provider has an adapter, its breaker lets
  -- a call through, and the adapter answers it.
  abbrev pub Ready : World → Type 0
  Ready w =
      (find_row job.payment_id job.tenant_id w.db.payments ≡ some p)
      × (w.ledger ≡ l0)
      × (resolve_adapter answers.crash_double context.provider_id w.providers ≡ some adapter)
      × (enter_breaker answers.reset_ms answers.now (get_breaker context.provider_id w.breakers)
          ≡ some gate)
      × ((submit_transfer adapter (transfer_request answers job p) w.adapters).0 ≡ some transfer)

  module _ (is_executing : p.status ≡ executing) where
    submit-Completes :
        (j : ℕ)
        → Completes
            (suc (suc (suc j)))
            Ready
            (submit answers job context.provider_id p)
            j
            (λ _. At (Sent job l0))
    unfolding submit
    submit-Completes j =
        reads-Completes (resolve_statement answers context.provider_id) adapter (suc (suc j)) j
          Ready _ _ (λ w h. rw h.2 refl)
          (Completes-then _ _ _ _ _
            (through_breaker-Completes answers context.provider_id
              (submit_statement answers job p adapter) (suc j) Ready (Sent job l0)
              (λ w h. (gate, h.3, rw h.4 ((p, h.0, is_executing), h.1))))
            _ _ _
            (λ t.
              Completes-then _ _ _ _ _
                (Completes-statement (At (Sent job l0)) (λ _. At (Sent job l0)) j
                  (update_submission job (as_submitted t)) (λ w h. h))
                _ _ _ (λ _ n w free h. (free, h))))

    submit_or_fail-Completes :
        (j : ℕ)
        → Completes
            (suc (suc (suc j)))
            Ready
            (submit_or_fail answers job context.provider_id p)
            j
            (SentBy job l0)
    submit_or_fail-Completes j =
        Completes-catch _ _ _ _ _
          (Completes-then _ _ _ _ _ (submit-Completes j) _ _ (SentBy job l0)
            (λ t n w free h. (free, h)))
          _

    -- A submission that was accepted before is taken up; another one is made again.
    resume_with-Completes :
        (s : Submission) (status : SubmissionStatus) (ref : Option ℕ)
        → Completes 18 Ready
            (resume_with answers job context.provider_id p s status ref)
            15
            (SentBy job l0)
    resume_with-Completes s submitted (some ref) =
        Completes-return 3 15 Ready (SentBy job l0) (provided (some ref) s.chain_ref)
          (λ w h. ((p, h.0, is_executing), h.1))
    resume_with-Completes s submitted none = submit_or_fail-Completes 15
    resume_with-Completes s not_sent ref = submit_or_fail-Completes 15
    resume_with-Completes s refused ref = submit_or_fail-Completes 15

    persist-Completes :
        (r : Provided) → Completes 15 (SentBy job l0 r) (persist job r) 14 (SentBy job l0)
    unfolding persist_refs
    persist-Completes gave_up = λ n w free h. absurd h
    persist-Completes (provided ref chain) =
        Completes-then _ _ _ _ _
          (Completes-statement (At (Sent job l0)) (λ _. At (Sent job l0)) 14
            (on_db (persist_refs job.payment_id job.tenant_id ref chain))
            (λ w h.
              on_db-Succeeds job.payment_id job.tenant_id (with_refs ref chain h.0.0) w
                (persist_refs job.payment_id job.tenant_id ref chain w.db) (Sent job l0)
                (update-RowIs job.payment_id job.tenant_id (with_refs ref chain) (λ q k. k) w.db
                  h.0.0 h.0.1 (rw h.0.2 refl))
                (λ d found. ((with_refs ref chain h.0.0, found, h.0.2), h.1))))
          _ _ _ (λ _ n w free h. (free, h))

    abbrev HasSubmission : World → Type 0
    HasSubmission w = (s : Submission) × (find (is_submission job) w.submissions ≡ some s)

    ensure-Completes :
        Completes 20 Ready (ensure_provider_submission job context.provider_id) 18 (λ _. Ready)
    unfolding ensure_provider_submission
    ensure-Completes =
        Completes-then _ _ _ _ (λ _ w. Ready w × HasSubmission w)
          (Completes-statement Ready (λ _ w. Ready w × HasSubmission w) 19
            (insert_submission job context.provider_id)
            (λ w h. (h, inserted_found job context.provider_id w)))
          _ _ _
          (λ _.
            Completes-statement (λ w. Ready w × HasSubmission w) (λ _. Ready) 18
              (select_submission job) (λ w h. rw h.1.1 h.0))

    provide_with-Completes :
        (ref : Option ℕ)
        → Completes 20 Ready (provide_with answers job context p ref) 14 (SentBy job l0)
    provide_with-Completes (some ref) =
        Completes-return 6 14 Ready (SentBy job l0) (provided (some ref) p.chain_ref)
          (λ w h. ((p, h.0, is_executing), h.1))
    provide_with-Completes none = Completes-then _ _ _ _ _ ensure-Completes _ _ _ (λ s.
        Completes-then _ _ _ _ _ (resume_with-Completes s s.status s.provider_ref) _ _ _
          persist-Completes)

    pub provide-Completes : Completes 21 Ready (provide answers job context p) 14 (SentBy job l0)
    unfolding provide record_attempt
    provide-Completes =
        Completes-then _ _ _ _ _
          (Completes-statement Ready (λ _. Ready) 20
            (insert_attempt job provider_submission started) (λ w h. h))
          _ _ _ (λ _. provide_with-Completes p.provider_ref)
