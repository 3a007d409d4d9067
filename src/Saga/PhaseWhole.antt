-- ===== src/Saga/PhaseWhole.antt =====
-- The whole run of the saga meets its phases.
use stablecoin_treasury.Payment.Table.{find_row}
use stablecoin_treasury.Payment.Types.{executing, settled, status_eq, Payment, Error}
use stablecoin_treasury.Prelude.Outcome.{Outcome, ok, err}
use stablecoin_treasury.Prelude.{
  ℕ, Option, none, some, ◌≡◌, refl, inl, inr, Bool, true, false, List, [], ◌∷◌, Bool-cases, find,
}
use stablecoin_treasury.Payment.Settlement.{persist_refs, settle_payment}
use stablecoin_treasury.Saga.World.{
  World, SubmissionStatus, not_sent, submitted, refused, Submission, SagaStep, provider_submission,
  AttemptOutcome, started, failure, ledger_debit, journal_creation, reconciliation, settlement,
  success, Post, journals_posted, match_posted,
}
use stablecoin_treasury.Saga.Monad.{
  Triple, Triple-then, Triple-catch, Triple-statement, Fate, runs, lost, answer_lost, on_done, lift,
  Ends, After,
}
use stablecoin_treasury.Saga.Run.{
  Job, Context, Answers, on_db, record_attempt, insert_submission, select_submission,
  ensure_provider_submission, update_submission, as_refused, found_or_throw, is_submission,
  submission_or_throw,
}
use stablecoin_treasury.Saga.Steps.{
  provide, Provided, provided, gave_up, submission_failed, submit_or_fail, resume_with, persist,
  provide_with,
}
use stablecoin_treasury.Saga.Settle.{
  finish, settle, debit_statement, post_statement, audit_settled, when_provided, when_allowed,
  run_executing, run_payment, execute_saga,
}
use stablecoin_treasury.Saga.Phases.{
  Phase, Obligations, At, record_attempt-Triple, attempted-Triple,
}
use stablecoin_treasury.Saga.PhaseRun.{
  Provides, on_db-After, fail-Triple, submit-Triple, Continues, answered-Triple,
  check_policy-Triple,
}

module _ (answers : Answers) (job : Job) (p : Payment) (P0 P1 P2 P3 R : Phase)
    (o : Obligations answers job p P0 P1 P2 P3 R) where
  weak : (w : World) → At P0 w → At R w
  weak w h = o.weak0 w.db w.adapters w.ledger w.posts h

  attempt :
      (step : SagaStep) (outcome : AttemptOutcome)
      → Triple (At P0) (record_attempt job step outcome) (λ _. At P0) (At R)
  attempt step outcome = record_attempt-Triple job P0 R step outcome weak

  submission_failed-Triple :
      (e : Error) → Triple (At P0) (submission_failed job e) (Provides P0 R) (At R)
  submission_failed-Triple e =
      Triple-then (At R) (At P0) _ (λ _. At P0) _ (Provides P0 R)
        (Triple-statement (At P0) (λ _. At P0) (At R) (update_submission job as_refused) weak
          (λ _. weak) (λ w h. h))
        (λ _.
          Triple-then (At R) (At P0) _ (λ _. At P0) _ (Provides P0 R)
            (attempt provider_submission failure)
            (λ _.
              Triple-then (At R) (At P0) _ (λ _. At R) _ (Provides P0 R)
                (fail-Triple answers job p P0 P1 P2 P3 R o) (λ _ n w r. r)))

  submit_or_fail-Triple :
      (id : ℕ) → Triple (At P0) (submit_or_fail answers job id p) (Provides P0 R) (At R)
  submit_or_fail-Triple id =
      Triple-catch (At R) (At P0) _ (Provides P0 R) (At P0) _ weak
        (Triple-then (At P0) (At P0) _ (λ _. At P0) _ (Provides P0 R)
          (submit-Triple answers job p P0 P1 P2 P3 R o id) (λ t n w h. h))
        submission_failed-Triple

  resume-Triple :
      (id : ℕ) (s : Submission) (status : SubmissionStatus) (ref : Option ℕ)
      → Triple (At P0) (resume_with answers job id p s status ref) (Provides P0 R) (At R)
  resume-Triple id s submitted (some ref) = λ n w h. h
  resume-Triple id s submitted none = submit_or_fail-Triple id
  resume-Triple id s not_sent ref = submit_or_fail-Triple id
  resume-Triple id s refused ref = submit_or_fail-Triple id

  persist-Triple : (r : Provided) → Triple (Provides P0 R r) (persist job r) (Provides P0 R) (At R)
  persist-Triple gave_up = λ n w h. h
  persist-Triple (provided ref chain) =
      Triple-then (At R) (At P0) _ (λ _. At P0) _ (Provides P0 R)
        (Triple-statement (At P0) (λ _. At P0) (At R)
          (on_db (persist_refs job.payment_id job.tenant_id ref chain)) weak (λ _. weak)
          (λ w h.
            on_db-After P0 R (persist_refs job.payment_id job.tenant_id ref chain) w
              (o.weak0 _ _ _ _) (o.persists w.db w.adapters w.ledger w.posts ref chain h)))
        (λ _ n w h. h)

  found :
      (w : World) (s : Option Submission)
      → At P0 w
      → After (λ _. At P0) (At R) (submission_or_throw s, w)
  found w none h = weak w h
  found w (some s) h = h

  ensure-Triple : (id : ℕ) → Triple (At P0) (ensure_provider_submission job id) (λ _. At P0) (At R)
  unfolding ensure_provider_submission
  ensure-Triple id =
      Triple-then (At R) (At P0) _ (λ _. At P0) _ (λ _. At P0)
        (Triple-statement (At P0) (λ _. At P0) (At R) (insert_submission job id) weak (λ _. weak)
          (λ w h. h))
        (λ _.
          Triple-statement (At P0) (λ _. At P0) (At R) (select_submission job) weak (λ _. weak)
            (λ w. found w (find (is_submission job) w.submissions)))

  provide_with-Triple :
      (context : Context) (ref : Option ℕ)
      → Triple (At P0) (provide_with answers job context p ref) (Provides P0 R) (At R)
  provide_with-Triple context (some ref) = λ n w h. h
  provide_with-Triple context none =
      Triple-then (At R) (At P0) _ (λ _. At P0) _ (Provides P0 R)
        (ensure-Triple context.provider_id)
        (λ s.
          Triple-then (At R) (At P0) _ (Provides P0 R) _ (Provides P0 R)
            (resume-Triple context.provider_id s s.status s.provider_ref) persist-Triple)

  provide-Triple :
      (context : Context) → Triple (At P0) (provide answers job context p) (Provides P0 R) (At R)
  unfolding provide
  provide-Triple context =
      Triple-then (At R) (At P0) _ (λ _. At P0) _ (Provides P0 R)
        (attempt provider_submission started) (λ _. provide_with-Triple context p.provider_ref)

  settle-Triple : Triple (At P3) (settle answers job p) (λ _. At R) (At R)
  unfolding settle
  settle-Triple =
      Triple-then (At R) (At P3) _ (λ _. At P3) _ (λ _. At R)
        (record_attempt-Triple job P3 R settlement started (λ w. o.weak3 _ _ _ _))
        (λ _.
          Triple-then (At R) (At P3) _ (λ _. At R) _ (λ _. At R)
            (Triple-statement (At P3) (λ _. At R) (At R)
              (on_db (settle_payment job.payment_id job.tenant_id _)) (λ w. o.weak3 _ _ _ _)
              (λ _ w r. r)
              (λ w h.
                on_db-After R R (settle_payment job.payment_id job.tenant_id _) w (λ r. r)
                  (o.settles w.db w.adapters w.ledger w.posts _ h)))
            (λ _.
              Triple-then (At R) (At R) _ (λ _. At R) _ (λ _. At R)
                (record_attempt-Triple job R R settlement success (λ w r. r))
                (λ _.
                  Triple-statement (At R) (λ _. At R) (At R) (audit_settled job p) (λ w r. r)
                    (λ _ w r. r) (λ w r. o.logs w.db w.adapters w.ledger w.posts _ r))))

  post-After :
      (P Q : Phase) (post : Post) (w : World) (answer : Outcome Error (Unit {0}))
      → (At P w → At R w)
      → (At P w → At Q (record w { posts = post ∷ w.posts }))
      → At P w
      → After (λ _. At Q) (At R) (post_statement answer post w)
  post-After P Q post w (ok _) p_r p_q h = p_q h
  post-After P Q post w (err e) p_r p_q h = p_r h

  finish-Triple :
      (context : Context) → Triple (At P0) (finish answers job context p) (λ _. At R) (At R)
  unfolding finish
  finish-Triple context =
      Triple-then (At R) (At P0) _ (λ _. At P1) _ (λ _. At R)
        (attempted-Triple job P0 P1 R ledger_debit (debit_statement job context p) weak
          (λ w. o.weak1 _ _ _ _) (o.debits_ok context))
        (λ _.
          Triple-then (At R) (At P1) _ (λ _. At P2) _ (λ _. At R)
            (attempted-Triple job P1 P2 R journal_creation
              (post_statement answers.journals (journals_posted job.tenant_id p.id))
              (λ w. o.weak1 _ _ _ _) (λ w. o.weak2 _ _ _ _)
              (λ w.
                post-After P1 P2 _ w answers.journals (o.weak1 _ _ _ _)
                  (o.journals_ok w.db w.adapters w.ledger w.posts)))
            (λ _.
              Triple-then (At R) (At P2) _ (λ _. At P3) _ (λ _. At R)
                (attempted-Triple job P2 P3 R reconciliation
                  (post_statement answers.matched (match_posted job.tenant_id p.id))
                  (λ w. o.weak2 _ _ _ _) (λ w. o.weak3 _ _ _ _)
                  (λ w.
                    post-After P2 P3 _ w answers.matched (o.weak2 _ _ _ _)
                      (o.match_ok w.db w.adapters w.ledger w.posts)))
                (λ _. settle-Triple)))

  provided-Triple :
      (context : Context) (r : Provided)
      → Triple (Provides P0 R r) (when_provided answers job context p r) (λ _. At R) (At R)
  provided-Triple context gave_up = λ n w r. r
  provided-Triple context (provided _ _) =
      Triple-then (At R) (At P0) _ (λ _. At P0) _ (λ _. At R) (attempt provider_submission success)
        (λ _. finish-Triple context)

  allowed-Triple :
      (context : Context) (go : Bool)
      → Triple (Continues P0 R go) (when_allowed answers job context p go) (λ _. At R) (At R)
  allowed-Triple context false = λ n w r. r
  allowed-Triple context true =
      Triple-then (At R) (At P0) _ (Provides P0 R) _ (λ _. At R) (provide-Triple context)
        (provided-Triple context)

  -- The run of a payment that is Executing.
  pub run_executing-Triple : Triple (At P0) (run_executing answers job p) (λ _. At R) (At R)
  run_executing-Triple =
      Triple-then (At R) (At P0) _ (λ _. At P0) _ (λ _. At R)
        (answered-Triple answers job p P0 P1 P2 P3 R o answers.context)
        (λ context.
          Triple-then (At R) (At P0) _ (Continues P0 R) _ (λ _. At R)
            (check_policy-Triple answers job p P0 P1 P2 P3 R o) (allowed-Triple context))

-- A run that begins with the payment's row: it meets R if each start does, and if a row that is
-- Executing meets the obligations and their first phase.
pub execute_saga-Ends :
    (answers : Answers) (job : Job) (R : Phase) (w : World)
    → At R w
    → ((p : Payment)
        → find_row job.payment_id job.tenant_id w.db.payments ≡ some p
        → status_eq p.status executing ≡ true
        → (P0 : Phase) × (P1 : Phase) × (P2 : Phase) × (P3 : Phase) × Obligations answers job p P0
            P1 P2 P3 R
          × At P0 w)
    → (n : List Fate) → Ends (λ _. At R) (At R) (execute_saga answers job n w)
unfolding execute_saga
execute_saga-Ends answers job R w r starts [] = r
execute_saga-Ends answers job R w r starts (lost ∷ n) = r
execute_saga-Ends answers job R w r starts (answer_lost ∷ n) = r
execute_saga-Ends answers job R w r starts (runs ∷ n) =
    from (find_row job.payment_id job.tenant_id w.db.payments) refl
  where
    from :
        (o : Option Payment)
        → find_row job.payment_id job.tenant_id w.db.payments ≡ o
        → Ends (λ _. At R) (At R) (on_done (run_payment answers job) (lift n (found_or_throw o, w)))
    from none e = r
    from (some p) e = elim (Bool-cases (status_eq p.status settled)) [
      | inl over ↦ simp over r
      | inr unsettled ↦ elim (Bool-cases (status_eq p.status executing)) [
        | inr other ↦ simp (unsettled, other) r
        | inl running ↦
            let (P0, P1, P2, P3, o, h) = starts p e running in
            simp (unsettled, running) (run_executing-Triple answers job p P0 P1 P2 P3 R o n w h)
      ]
    ]
