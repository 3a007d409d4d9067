-- ===== src/Saga/PhaseRun.antt =====
-- A run of the saga meets its phases, whatever becomes of its statements.
use stablecoin_treasury.Prelude.Outcome.{Outcome, ok, err}
use stablecoin_treasury.Prelude.{Bool, true, false, ℕ, Option, none, some}
use stablecoin_treasury.Payment.Types.{Payment, Decision, clear, review, block, Db, Error}
use stablecoin_treasury.Payment.Settlement.{fail_payment}
use stablecoin_treasury.Custody.Adapter.{
  Transfer, AdapterKey, Adapters, resolve_adapter, submit_transfer,
}
use stablecoin_treasury.Custody.Breaker.{Breaker, enter_breaker}
use stablecoin_treasury.Saga.World.{
  World, SagaStep, policy_check, AttemptOutcome, started, success, failure, get_breaker,
}
use stablecoin_treasury.Saga.Monad.{
  Triple, After, Triple-statement, statement, Triple-then, Saga, Ending, done, threw, crashed,
  on_done, lift, Ends,
}
use stablecoin_treasury.Saga.Run.{
  Job, Answers, on_db, fail_statement, answered, record_attempt, update_submission, as_submitted,
}
use stablecoin_treasury.Saga.Steps.{
  policy_decided, check_policy, Provided, provided, gave_up, resolve_statement, through_breaker,
  transfer_request, submit_statement, submit, adapter_or_throw, entered, settle_call,
  transfer_or_throw,
}
use stablecoin_treasury.Saga.Phases.{Phase, Obligations, At, record_attempt-Triple}

-- A statement on the payment tables, whose outcome is not looked at.
pub on_db-After {ℓ} :
    {A : Type ℓ} (P R : Phase) (f : Db → Outcome Error A × Db) (w : World)
    → (At P (record w { db = (f w.db).1 }) → At R (record w { db = (f w.db).1 }))
    → At P (record w { db = (f w.db).1 })
    → After (λ _. At P) (At R) (on_db f w)
on_db-After {A} P R f w weaker h = step (f w.db) weaker h
  where
    step :
        (r : Outcome Error A × Db)
        → (At P (record w { db = r.1 }) → At R (record w { db = r.1 }))
        → At P (record w { db = r.1 })
        → After (λ _. At P) (At R) (r.0, record w { db = r.1 })
    step (ok a, d) weaker h = h
    step (err e, d) weaker h = weaker h

-- Where a run goes on.
abbrev pub Continues : Phase → Phase → Bool → World → Type 0
Continues P R true w = At P w
Continues P R false w = At R w

abbrev pub Provides : Phase → Phase → Provided → World → Type 0
Provides P R gave_up w = At R w
Provides P R (provided _ _) w = At P w

module _ (answers : Answers) (job : Job) (p : Payment) (P0 P1 P2 P3 R : Phase)
    (o : Obligations answers job p P0 P1 P2 P3 R) where
  weak : (w : World) → At P0 w → At R w
  weak w h = o.weak0 w.db w.adapters w.ledger w.posts h

  same : (w : World) → At R w → At R w
  same w h = h

  attempt :
      (step : SagaStep) (outcome : AttemptOutcome)
      → Triple (At P0) (record_attempt job step outcome) (λ _. At P0) (At R)
  attempt step outcome = record_attempt-Triple job P0 R step outcome weak

  pub fail-Triple : Triple (At P0) (fail_statement job) (λ _. At R) (At R)
  fail-Triple =
      Triple-statement (At P0) (λ _. At R) (At R)
        (on_db (fail_payment job.payment_id job.tenant_id)) weak (λ _. same)
        (λ w h.
          on_db-After R R (fail_payment job.payment_id job.tenant_id) w (λ r. r)
            (o.fails w.db w.adapters w.ledger w.posts h))

  decided-Triple : (d : Decision) → Triple (At P0) (policy_decided job d) (Continues P0 R) (At R)
  decided-Triple block =
      Triple-then (At R) (At P0) _ (λ _. At P0) _ (Continues P0 R) (attempt policy_check failure)
        (λ _.
          Triple-then (At R) (At P0) _ (λ _. At R) _ (Continues P0 R) fail-Triple (λ _ n w r. r))
  decided-Triple review =
      Triple-then (At R) (At P0) _ (λ _. At P0) _ (Continues P0 R) (attempt policy_check failure)
        (λ _ n w h. weak w h)
  decided-Triple clear =
      Triple-then (At R) (At P0) _ (λ _. At P0) _ (Continues P0 R) (attempt policy_check success)
        (λ _ n w h. h)

  -- A call of another service that leaves everything as it is.
  pub answered-Triple :
      {A : Type 0} (r : Outcome Error A)
      → Triple (At P0) (statement (answered r)) (λ _. At P0) (At R)
  answered-Triple {A} r =
      Triple-statement (At P0) (λ _. At P0) (At R) (answered r) weak (λ _. weak) (step r)
    where
      step : (r : Outcome Error A) (w : World) → At P0 w → After (λ _. At P0) (At R) (r, w)
      step (ok a) w h = h
      step (err e) w h = weak w h

  pub check_policy-Triple : Triple (At P0) (check_policy answers job) (Continues P0 R) (At R)
  unfolding check_policy
  check_policy-Triple =
      Triple-then (At R) (At P0) _ (λ _. At P0) _ (Continues P0 R) (attempt policy_check started)
        (λ _.
          Triple-then (At R) (At P0) _ (λ _. At P0) _ (Continues P0 R)
            (answered-Triple answers.evaluation) decided-Triple)

  -- The adapter's call: the phase before the debit does not depend on what it returns.
  submit_statement-After :
      (adapter : AdapterKey) (w : World)
      → At P0 w
      → After (λ _. At P0) (At P0) (submit_statement answers job p adapter w)
  submit_statement-After adapter w h =
      step (submit_transfer adapter (transfer_request answers job p) w.adapters)
        (o.submits w.db w.adapters w.ledger w.posts adapter h)
    where
      step :
          (r : Option Transfer × Adapters)
          → P0 w.db r.1 w.ledger w.posts
          → After
              (λ _. At P0)
              (At P0)
              (let (t, adapters) = r in (transfer_or_throw t, record w { adapters = adapters }))
      step (some t, a) q = q
      step (none, a) q = q

  through_breaker-Triple :
      (provider_id : ℕ) (call : Saga Transfer)
      → Triple (At P0) call (λ _. At P0) (At P0)
      → Triple (At P0) (through_breaker answers provider_id call) (λ _. At P0) (At P0)
  through_breaker-Triple provider_id call h n w q =
      step (enter_breaker answers.reset_ms answers.now (get_breaker provider_id w.breakers))
    where
      settle_step :
          (r : Ending Transfer)
          → Ends (λ _. At P0) (At P0) r
          → Ends (λ _. At P0) (At P0) (settle_call answers provider_id r)
      settle_step (done t k v) e = e
      settle_step (threw e k v) e' = e'
      settle_step (crashed v) e = e

      step :
          (b : Option Breaker)
          → Ends
              (λ _. At P0)
              (At P0)
              (on_done
                (λ _ k v. settle_call answers provider_id (call k v))
                (lift n (entered provider_id w b)))
      step none = q
      step (some b) = settle_step (call n _) (h n _ q)

  resolved :
      (w : World) (a : Option AdapterKey)
      → At P0 w
      → After (λ _. At P0) (At P0) (adapter_or_throw a, w)
  resolved w none h = h
  resolved w (some a) h = h

  pub submit-Triple :
      (provider_id : ℕ) → Triple (At P0) (submit answers job provider_id p) (λ _. At P0) (At P0)
  unfolding submit
  submit-Triple provider_id =
      Triple-then (At P0) (At P0) _ (λ _. At P0) _ (λ _. At P0)
        (Triple-statement (At P0) (λ _. At P0) (At P0) (resolve_statement answers provider_id)
          (λ w h. h) (λ _ w h. h)
          (λ w. resolved w (resolve_adapter answers.crash_double provider_id w.providers)))
        (λ adapter.
          Triple-then (At P0) (At P0) _ (λ _. At P0) _ (λ _. At P0)
            (through_breaker-Triple provider_id (statement (submit_statement answers job p adapter))
              (Triple-statement (At P0) (λ _. At P0) (At P0)
                (submit_statement answers job p adapter) (λ w h. h) (λ _ w h. h)
                (submit_statement-After adapter)))
            (λ t.
              Triple-then (At P0) (At P0) _ (λ _. At P0) _ (λ _. At P0)
                (Triple-statement (At P0) (λ _. At P0) (At P0)
                  (update_submission job (as_submitted t)) (λ w h. h) (λ _ w h. h) (λ w h. h))
                (λ _ n w h. h)))
