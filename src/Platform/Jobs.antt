-- ===== src/Platform/Jobs.antt =====
-- The durable job queue (packages/shared/jobs.mjs): platform.jobs and its attempt trail. Times
-- are milliseconds; a `now` argument is the clock of the call.
use stablecoin_treasury.Prelude.{ℕ, ◌+◌, ◌++◌, List, [], ◌∷◌, Option, none}

pub data JobStatus : Type 0 where
  pending running completed failed dead_lettered : JobStatus

pub data JobType : Type 0 where
  execute_payment auto_expiry idempotency_sweep settlement_webhook : JobType
  match_statement ops_watchdog audit_chain_verify : JobType
  unknown_type : ℕ → JobType

-- A row of platform.jobs. `subject` is the payment or statement id in the payload.
pub record Job : Type 0 where
  pub id : ℕ
  pub tenant_id : ℕ
  pub type : JobType
  pub subject : ℕ
  pub status : JobStatus
  pub attempts : ℕ
  pub max_attempts : ℕ
  pub run_at : ℕ
  pub locked_by : Option ℕ
  pub last_error : Option ℕ

-- platform.jobs, with the next id that the database will generate.
pub record JobTable : Type 0 where
  pub rows : List Job
  pub next_id : ℕ

-- `enqueueJob` and `enqueueJobInTx`: the same INSERT, alone or on the caller's transaction.
unfoldable pub enqueue_job : JobType → ℕ → ℕ → ℕ → ℕ → ℕ → JobTable → Job × JobTable
enqueue_job type subject delay_ms max_attempts tenant_id now t =
    let job : Job = record {
      id = t.next_id;
      tenant_id = tenant_id;
      type = type;
      subject = subject;
      status = pending;
      attempts = 0;
      max_attempts = max_attempts;
      run_at = now + delay_ms;
      locked_by = none;
      last_error = none;
    } in
    (job, record { rows = t.rows ++ job ∷ []; next_id = t.next_id + 1 })
