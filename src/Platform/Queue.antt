-- ===== src/Platform/Queue.antt =====
-- Claiming, completing and failing jobs (packages/shared/jobs.mjs), and one job of a worker
-- (services/job-worker/src/queue.mjs).
use stablecoin_treasury.Prelude.Outcome.{Outcome, ok, err}
use stablecoin_treasury.Prelude.{
  ℕ, Option, min, ◌*◌, ◌^◌, zero, suc, ◌+◌, Bool, true, false, ◌&&◌, none, some, List, [], ◌∷◌,
  ◌++◌, map, leb, ◌==◌, if◌then◌else◌, find, select, any,
}
use stablecoin_treasury.Platform.Events.{
  job_dead_lettered, append_outbox_events, alert_created, OutboxEvent, OutboxRow,
}
use stablecoin_treasury.Platform.Jobs.{
  Job, JobStatus, JobTable, pending, running, completed, failed, dead_lettered,
}

pub data JobOutcome : Type 0 where
  started success failure dead_letter : JobOutcome

-- A row of platform.job_attempts.
pub record JobAttempt : Type 0 where
  pub job_id : ℕ
  pub attempt_no : ℕ
  pub outcome : JobOutcome

pub record Queue : Type 0 where
  pub jobs : JobTable
  pub trail : List JobAttempt
  pub outbox : List OutboxRow

-- `status IN ('pending', 'failed') AND run_at <= now()`
unfoldable pub is_claimable : JobStatus → Bool
is_claimable pending = true
is_claimable failed = true
is_claimable running = false
is_claimable completed = false
is_claimable dead_lettered = false

unfoldable pub is_due : ℕ → Job → Bool
is_due now j = is_claimable j.status && leb j.run_at now

-- `ORDER BY run_at`
unfoldable pub insert_by_run_at : Job → List Job → List Job
insert_by_run_at j [] = j ∷ []
insert_by_run_at j (k ∷ ks) =
    let rest = insert_by_run_at j ks in if leb j.run_at k.run_at then j ∷ k ∷ ks else k ∷ rest

unfoldable pub sort_by_run_at : List Job → List Job
unfolding insert_by_run_at
sort_by_run_at [] = []
sort_by_run_at (j ∷ js) = insert_by_run_at j (sort_by_run_at js)

-- `LIMIT`
unfoldable pub take : ℕ → List Job → List Job
take zero js = []
take (suc n) [] = []
take (suc n) (j ∷ js) = j ∷ take n js

unfoldable pub due_jobs : ℕ → ℕ → List Job → List Job
unfolding is_due sort_by_run_at take
due_jobs limit now rows = take limit (sort_by_run_at (select (is_due now) rows))

abbrev pub claimed : ℕ → Job → Job
claimed worker j = record j { status = running; attempts = suc j.attempts; locked_by = some worker }

-- The UPDATE of the rows whose id was selected. The subquery's lock keeps its condition true.
unfoldable pub claim_row : ℕ → ℕ → List Job → Job → Job
unfolding is_due
claim_row worker now due j =
    if is_due now j && any (λ k. k.id == j.id) due then claimed worker j else j

abbrev pub start_attempt : Job → JobAttempt
start_attempt j = record { job_id = j.id; attempt_no = suc j.attempts; outcome = started }

-- `claimJobs`: the claimed rows as they are afterwards, and the queue.
unfoldable pub claim_jobs : ℕ → ℕ → ℕ → Queue → List Job × Queue
unfolding due_jobs claim_row
claim_jobs worker limit now q =
    let due = due_jobs limit now q.jobs.rows in
    (
      map (claimed worker) due,
      record q {
        jobs = record q.jobs { rows = map (claim_row worker now due) q.jobs.rows };
        trail = map start_attempt due ++ q.trail;
      },
    )

-- `UPDATE platform.jobs SET … WHERE id`; the id is the primary key, so at most one row has it.
unfoldable pub patch_row : ℕ → (Job → Job) → List Job → List Job
patch_row id patch [] = []
patch_row id patch (j ∷ js) =
    let rest = patch_row id patch js in if j.id == id then patch j ∷ js else j ∷ rest

abbrev pub patch_job : ℕ → (Job → Job) → Queue → Queue
patch_job id patch q = record q { jobs = record q.jobs { rows = patch_row id patch q.jobs.rows } }

abbrev pub log_attempt : ℕ → ℕ → JobOutcome → Queue → Queue
log_attempt id attempt_no outcome q = record q {
  trail = record { job_id = id; attempt_no = attempt_no; outcome = outcome } ∷ q.trail;
}

abbrev pub as_completed : Job → Job
as_completed j = record j { status = completed; locked_by = none }

unfoldable pub complete_job : ℕ → ℕ → Queue → Queue
complete_job id attempt_no q = log_attempt id attempt_no success (patch_job id as_completed q)

-- `Math.min(250 * 2 ** nextAttempt, 60000)`
unfoldable pub backoff : ℕ → ℕ
backoff attempt = min (250 * 2 ^ attempt) 60000

abbrev pub as_dead : ℕ → ℕ → Job → Job
as_dead reason attempts j = record j {
  status = dead_lettered;
  last_error = some reason;
  attempts = attempts;
  locked_by = none;
}

abbrev pub as_retry : ℕ → ℕ → ℕ → Job → Job
as_retry reason attempts now j = record j {
  status = failed;
  last_error = some reason;
  attempts = attempts;
  run_at = now + backoff attempts;
  locked_by = none;
}

abbrev dead_letter_alert : Job → OutboxEvent
dead_letter_alert j = record {
  tenant_id = some j.tenant_id;
  aggregate_id = j.id;
  event_type = alert_created;
  payload = record { actor = 0; action = job_dead_lettered; object = j.subject };
}

abbrev pub alert_dead : Job → Queue → Queue
alert_dead j q = record q { outbox = append_outbox_events q.outbox (dead_letter_alert j ∷ []) }

abbrev pub fail_found : ℕ → ℕ → ℕ → Job → Queue → Queue
fail_found reason max_attempts now j q =
    if leb max_attempts j.attempts
    then alert_dead j
        (log_attempt j.id j.attempts dead_letter (patch_job j.id (as_dead reason j.attempts) q))
    else log_attempt j.id j.attempts failure (patch_job j.id (as_retry reason j.attempts now) q)

abbrev pub fail_on : ℕ → ℕ → ℕ → Option Job → Queue → Queue
fail_on reason max_attempts now none q = q
fail_on reason max_attempts now (some j) q = fail_found reason max_attempts now j q

-- `failJob`
unfoldable pub fail_job : ℕ → ℕ → ℕ → ℕ → Queue → Queue
fail_job id reason max_attempts now q =
    fail_on reason max_attempts now (find (λ j. j.id == id) q.jobs.rows) q

-- `runJob`, for a claimed job. `result` is what the handler comes to, `none` that the worker has
-- no handler for the type; errors are numbers, and 0 is "Unknown job type".
abbrev pub run_result : ℕ → Job → Option (Outcome ℕ (Unit {0})) → Queue → Queue
run_result now job none q = fail_job job.id 0 job.max_attempts now q
run_result now job (some (ok _)) q = complete_job job.id job.attempts q
run_result now job (some (err e)) q = fail_job job.id e job.max_attempts now q
