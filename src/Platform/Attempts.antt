-- ===== src/Platform/Attempts.antt =====
-- The attempts of the jobs of a queue are within their limits.
use stablecoin_treasury.Prelude.{
  ℕ, ◌+◌, ◌≤◌, ◌<◌, ◌≡◌, some, List, [], ◌∷◌, map, arith, ◌==◌, if◌then◌else◌, find, All,
  All-append, refl, inl, inr, leb, Bool-cases, sym, ap, ◌∙◌,
}
use stablecoin_treasury.Platform.Jobs.{Job, JobType, enqueue_job}
use stablecoin_treasury.Platform.Queue.{
  Queue, is_claimable, is_due, claim_row, claim_jobs, complete_job, fail_job, fail_found, patch_row,
  as_completed, as_dead, as_retry,
}

-- The attempts of a job, and one more if it can be claimed, are within its limit.
abbrev pub IsWithin : Job → Type 0
unfolding is_claimable
IsWithin j = j.attempts + (if is_claimable j.status then 1 else 0) ≤ j.max_attempts

-- What a worker does with the queue, one transaction at a time. A job that fails does so with
-- the limit of its row.
pub data QueueStep (q : Queue) : Queue → Type 0 where
  enqueue :
      (type : JobType) (subject delay max_attempts tenant now : ℕ)
      → 0 < max_attempts
      → QueueStep q
          (record q { jobs = (enqueue_job type subject delay max_attempts tenant now q.jobs).1 })
  claim : (worker limit now : ℕ) → QueueStep q (claim_jobs worker limit now q).1
  complete : (id attempt_no : ℕ) → QueueStep q (complete_job id attempt_no q)
  fail :
      (reason now : ℕ) (job : Job)
      → find (λ j. j.id == job.id) q.jobs.rows ≡ some job
      → QueueStep q (fail_job job.id reason job.max_attempts now q)

pub data Queued (start : Queue) : Queue → Type 0 where
  start_queue : Queued start start
  then_step : {q r : Queue} → Queued start q → QueueStep q r → Queued start r

map-All :
    (P : Job → Type 0) (f : Job → Job) (js : List Job)
    → ((j : Job) → P j → P (f j))
    → All P js
    → All P (map f js)
map-All P f [] keep h = tt
map-All P f (j ∷ js) keep h = (keep j h.0, map-All P f js keep h.1)

claim_row-IsWithin :
    (worker now : ℕ) (due : List Job) (j : Job) → IsWithin j → IsWithin (claim_row worker now due j)
unfolding claim_row is_claimable is_due
claim_row-IsWithin worker now due j h = ground arith

only : {a b : Job} → some a ≡ some b → a ≡ b
only e = cc

patch_row-All :
    (P : Job → Type 0) (id : ℕ) (patch : Job → Job) (js : List Job)
    → ((j : Job) → find (λ k. k.id == id) js ≡ some j → P j → P (patch j))
    → All P js
    → All P (patch_row id patch js)
unfolding patch_row
patch_row-All P id patch [] keep h = tt
patch_row-All P id patch (j ∷ js) keep h = elim (Bool-cases (j.id == id)) [
  | inl found ↦ simp found (keep j (simp found refl) h.0, h.1)
  | inr other ↦ simp other (h.0, patch_row-All P id patch js (λ k e. keep k (simp other e)) h.1)
]

fail_row-IsWithin :
    (reason now : ℕ) (job : Job) (q : Queue)
    → find (λ j. j.id == job.id) q.jobs.rows ≡ some job
    → All IsWithin q.jobs.rows
    → All IsWithin (fail_found reason job.max_attempts now job q).jobs.rows
unfolding is_claimable
fail_row-IsWithin reason now job q found h = elim (Bool-cases (leb job.max_attempts job.attempts)) [
  | inl over ↦ simp over (
      patch_row-All IsWithin job.id (as_dead reason job.attempts) q.jobs.rows
        (λ j e k. let attempts = ap (λ x. x.attempts) (only (sym found ∙ e)) in ground arith) h)
  | inr more ↦ simp more (
      patch_row-All IsWithin job.id (as_retry reason job.attempts now) q.jobs.rows
        (λ j e k.
          let attempts = ap (λ x. x.attempts) (only (sym found ∙ e)) in
          let limit = ap (λ x. x.max_attempts) (only (sym found ∙ e)) in ground arith)
        h)
]

QueueStep-IsWithin :
    {q r : Queue} → QueueStep q r → All IsWithin q.jobs.rows → All IsWithin r.jobs.rows
unfolding enqueue_job claim_jobs complete_job fail_job is_claimable
QueueStep-IsWithin {q} (enqueue type subject delay max_attempts tenant now positive) h =
    All-append IsWithin q.jobs.rows _ h (ground arith, tt)
QueueStep-IsWithin {q} (claim worker limit now) h =
    map-All IsWithin (claim_row worker now _) q.jobs.rows (claim_row-IsWithin worker now _) h
QueueStep-IsWithin {q} (complete id attempt_no) h =
    patch_row-All IsWithin id as_completed q.jobs.rows (λ j e k. ground arith) h
QueueStep-IsWithin {q} (fail reason now job found) h =
    rw found (fail_row-IsWithin reason now job q found h)

-- However workers claim, complete and fail the jobs, the attempts of each are within its limit.
pub Queued-IsWithin :
    {start q : Queue} → start.jobs.rows ≡ [] → Queued start q → All IsWithin q.jobs.rows
Queued-IsWithin e start_queue = rw e tt
Queued-IsWithin e (then_step before step) = QueueStep-IsWithin step (Queued-IsWithin e before)

pub attempts-IsWithin : (j : Job) → IsWithin j → j.attempts ≤ j.max_attempts
unfolding is_claimable
attempts-IsWithin j h = elim (Bool-cases (is_claimable j.status)) [
  | inl may ↦ omega (arith, rw may at h)
  | inr may_not ↦ omega (arith, rw may_not at h)
]
