-- ===== src/Saga/Steps.antt =====
-- The steps of `executePaymentSaga`, composed.
use stablecoin_treasury.Prelude.{ℕ, Bool, true, false, Option, none, some}
use stablecoin_treasury.Prelude.Outcome.{Outcome, ok, err}
use stablecoin_treasury.Payment.Types.{
  Payment, Error, review_required, connection_lost, circuit_open, adapter_unavailable, Decision,
  clear, review, block,
}
use stablecoin_treasury.Payment.Settlement.{persist_refs}
use stablecoin_treasury.Custody.Adapter.{
  submit_transfer, Transfer, AdapterKey, TransferRequest, resolve_adapter,
}
use stablecoin_treasury.Custody.Breaker.{call_failed, Breaker, enter_breaker, call_succeeded}
use stablecoin_treasury.Saga.World.{
  World, SubmissionStatus, not_sent, submitted, refused, Submission, policy_check,
  provider_submission, started, success, failure, get_breaker, set_breaker,
}
use stablecoin_treasury.Saga.Monad.{
  Saga, Ending, done, threw, crashed, return, throw, on_done, ◌>>=◌, ◌>>◌, catch, lift, statement,
}
use stablecoin_treasury.Saga.Run.{
  Job, Context, Answers, on_db, answered, fail_statement, ensure_provider_submission,
  update_submission, as_submitted, as_refused, record_attempt,
}

-- Step 1; `true` goes on, `false` is a return.
abbrev pub policy_decided : Job → Decision → Saga Bool
policy_decided job block =
    record_attempt job policy_check failure >> (fail_statement job >> return false)
policy_decided job review = record_attempt job policy_check failure >> throw review_required
policy_decided job clear = record_attempt job policy_check success >> return true

unfoldable pub check_policy : Answers → Job → Saga Bool
check_policy answers job =
    record_attempt job policy_check started
    >> (statement (answered answers.evaluation) >>= policy_decided job)

-- `resolveAdapter`, and the throw on null.
abbrev pub adapter_or_throw : Option AdapterKey → Outcome Error AdapterKey
adapter_or_throw none = err adapter_unavailable
adapter_or_throw (some a) = ok a

abbrev pub resolve_statement : Answers → ℕ → World → Outcome Error AdapterKey × World
resolve_statement answers provider_id w =
    (adapter_or_throw (resolve_adapter answers.crash_double provider_id w.providers), w)

-- `withBreaker` around a call: the breaker is in memory, so only the call is a statement.
abbrev pub entered : ℕ → World → Option Breaker → Outcome Error (Unit {0}) × World
entered provider_id w none = (err circuit_open, w)
entered provider_id w (some b) =
    (ok tt, record w { breakers = set_breaker provider_id b w.breakers })

abbrev pub enter_call : Answers → ℕ → World → Outcome Error (Unit {0}) × World
enter_call answers provider_id w =
    entered provider_id w
      (enter_breaker answers.reset_ms answers.now (get_breaker provider_id w.breakers))

abbrev pub update_breaker : ℕ → (Breaker → Breaker) → World → World
update_breaker provider_id f w = record w {
  breakers = set_breaker provider_id (f (get_breaker provider_id w.breakers)) w.breakers;
}

abbrev pub settle_call : Answers → ℕ → Ending Transfer → Ending Transfer
settle_call answers provider_id (done t n w) =
    done t n (update_breaker provider_id call_succeeded w)
settle_call answers provider_id (threw e n w) =
    threw e n (update_breaker provider_id (call_failed answers.max_failures answers.now) w)
settle_call answers provider_id (crashed w) = crashed w

abbrev pub through_breaker : Answers → ℕ → Saga Transfer → Saga Transfer
through_breaker answers provider_id call n w =
    on_done (λ _ k v. settle_call answers provider_id (call k v))
      (lift n (enter_call answers provider_id w))

-- `adapter.submitTransfer`
abbrev pub transfer_or_throw : Option Transfer → Outcome Error Transfer
transfer_or_throw none = err connection_lost
transfer_or_throw (some t) = ok t

abbrev pub transfer_request : Answers → Job → Payment → TransferRequest
transfer_request answers job p = record {
  idempotency_key = job.payment_id;
  provider_ref = p.provider_ref;
  chain_ref = p.chain_ref;
  random_provider_ref = answers.provider_ref;
  random_chain_ref = answers.chain_ref;
}

abbrev pub submit_statement :
    Answers → Job → Payment → AdapterKey → World → Outcome Error Transfer × World
submit_statement answers job p adapter w =
    let (t, adapters) = submit_transfer adapter (transfer_request answers job p) w.adapters in
    (transfer_or_throw t, record w { adapters = adapters })

-- The body of the `try`: what was submitted is recorded before the references are returned.
unfoldable pub submit : Answers → Job → ℕ → Payment → Saga Transfer
submit answers job provider_id p = statement (resolve_statement answers provider_id) >>= λ adapter.
    through_breaker answers provider_id (statement (submit_statement answers job p adapter))
    >>= λ t. statement (update_submission job (as_submitted t)) >> return t

-- The references of the payment after step 2, or a return.
pub data Provided : Type 0 where
  provided : Option ℕ → Option ℕ → Provided
  gave_up : Provided

abbrev pub submission_failed : Job → Error → Saga Provided
submission_failed job e =
    statement (update_submission job as_refused)
    >> (record_attempt job provider_submission failure >> (fail_statement job >> return gave_up))

abbrev pub submit_or_fail : Answers → Job → ℕ → Payment → Saga Provided
submit_or_fail answers job provider_id p =
    catch
      (submit answers job provider_id p >>= λ t.
        return (provided (some t.provider_ref) (some t.chain_ref)))
      (submission_failed job)

-- Resuming a crashed attempt, or a submission.
abbrev pub resume_with :
    Answers → Job → ℕ → Payment → Submission → SubmissionStatus → Option ℕ → Saga Provided
resume_with answers job provider_id p s submitted (some ref) =
    return (provided (some ref) s.chain_ref)
resume_with answers job provider_id p s submitted none = submit_or_fail answers job provider_id p
resume_with answers job provider_id p s not_sent _ = submit_or_fail answers job provider_id p
resume_with answers job provider_id p s refused _ = submit_or_fail answers job provider_id p

abbrev pub resume_or_submit : Answers → Job → ℕ → Payment → Submission → Saga Provided
resume_or_submit answers job provider_id p s =
    resume_with answers job provider_id p s s.status s.provider_ref

abbrev pub persist : Job → Provided → Saga Provided
persist job gave_up = return gave_up
persist job (provided ref chain) =
    statement (on_db (persist_refs job.payment_id job.tenant_id ref chain))
    >> return (provided ref chain)

abbrev pub provide_fresh : Answers → Job → Context → Payment → Saga Provided
provide_fresh answers job context p = ensure_provider_submission job context.provider_id >>= λ s.
    resume_or_submit answers job context.provider_id p s >>= persist job

abbrev pub provide_with : Answers → Job → Context → Payment → Option ℕ → Saga Provided
provide_with answers job context p (some ref) = return (provided (some ref) p.chain_ref)
provide_with answers job context p none = provide_fresh answers job context p

-- Step 2.
unfoldable pub provide : Answers → Job → Context → Payment → Saga Provided
provide answers job context p =
    record_attempt job provider_submission started
    >> provide_with answers job context p p.provider_ref
