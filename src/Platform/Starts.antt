-- ===== src/Platform/Starts.antt =====
-- No job is started more often than its limit.
use stablecoin_treasury.Prelude.{
  ℕ, ◌+◌, ◌≤◌, ◌≡◌, refl, sym, ap, ◌∙◌, inl, inr, some, List, [], ◌∷◌, ◌++◌, arith, leb, ◌==◌,
  if◌then◌else◌, Bool-cases, find, select, any, All,
}
use stablecoin_treasury.Platform.Jobs.{Job, enqueue_job}
use stablecoin_treasury.Platform.Attempts.{
  attempts-IsWithin, IsWithin, QueueStep, enqueue, claim, complete, fail, Queued, start_queue,
  then_step, Queued-IsWithin,
}
use stablecoin_treasury.Platform.Queue.{
  Queue, is_due, sort_by_run_at, due_jobs, claim_jobs, patch_row, as_completed, complete_job,
  as_dead, as_retry, fail_found, fail_job,
}
use stablecoin_treasury.Platform.Tries.{
  starts, limit_of, tries, count_id-take, count_id-sort, count_id-any, claimed-tries, kept-tries,
  starts-append,
}

-- The starts of a job are those that its row counts.
abbrev Counted : ℕ → Queue → Type 0
Counted id q = starts id q.trail ≤ tries id q.jobs.rows

claim-Counted :
    (id worker limit now : ℕ) (q : Queue)
    → Counted id q
    → Counted id (claim_jobs worker limit now q).1
unfolding claim_jobs due_jobs
claim-Counted id worker limit now q h =
    let ready = select (is_due now) q.jobs.rows in
    let due = due_jobs limit now q.jobs.rows in
    let more = starts-append id due q.trail in
    let few = count_id-take id limit (sort_by_run_at ready) in
    let sorted = count_id-sort id ready in
    elim (Bool-cases (any (λ k. k.id == id) due)) [
      | inl picked ↦
          let up = claimed-tries id worker now due q.jobs.rows picked in
          omega (arith, more, few, sorted, up, h)
      | inr passed_over ↦
          let none_due = count_id-any id due passed_over in
          let up = kept-tries id worker now due q.jobs.rows in omega (arith, more, none_due, up, h)
    ]

patched-tries :
    (id other : ℕ) (patch : Job → Job) (js : List Job)
    → ((j : Job)
        → find (λ k. k.id == other) js ≡ some j
        → patch j ≡ record (patch j) { id = j.id; attempts = j.attempts })
    → tries id (patch_row other patch js) ≡ tries id js
unfolding tries patch_row
patched-tries id other patch [] keeps = refl
patched-tries id other patch (j ∷ js) keeps = elim (Bool-cases (j.id == other)) [
  | inl found ↦
      let same = keeps j (rw found refl) in
      let ids : (patch j).id ≡ j.id = ap (λ x. x.id) same in
      let attempts : (patch j).attempts ≡ j.attempts = ap (λ x. x.attempts) same in
      rw (found, ids, attempts) refl
  | inr unlike ↦ rw unlike (
      ap (λ n. (if j.id == id then j.attempts else 0) + n)
        (patched-tries id other patch js (λ k e. keeps k (rw unlike e))))
]

tries-append : (id : ℕ) (js ks : List Job) → tries id js ≤ tries id (js ++ ks)
unfolding tries
tries-append id [] ks = omega arith
tries-append id (j ∷ js) ks = let rest = tries-append id js ks in omega (arith, rest)

only : {a b : Job} → some a ≡ some b → a ≡ b
only e = cc

failed-Counted :
    (id reason now : ℕ) (job : Job) (q : Queue)
    → find (λ j. j.id == job.id) q.jobs.rows ≡ some job
    → Counted id q
    → Counted id (fail_found reason job.max_attempts now job q)
unfolding starts
failed-Counted id reason now job q found h =
    let same = λ (j : Job) (e : find (λ k. k.id == job.id) q.jobs.rows ≡ some j).
      ap (λ x. x.attempts) (only (sym found ∙ e)) in
    elim (Bool-cases (leb job.max_attempts job.attempts)) [
      | inl over ↦
          let kept =
            patched-tries id job.id (as_dead reason job.attempts) q.jobs.rows
              (λ j e. ap (λ n. as_dead reason n j) (same j e)) in
          simp over (ground (arith, kept, h))
      | inr more ↦
          let kept =
            patched-tries id job.id (as_retry reason job.attempts now) q.jobs.rows
              (λ j e. retried j (same j e)) in
          simp more (ground (arith, kept, h))
    ]
  where
    retried :
        (j : Job)
        → job.attempts ≡ j.attempts
        → as_retry reason job.attempts now j
          ≡ record (as_retry reason job.attempts now j) { id = j.id; attempts = j.attempts }
    retried j e = ap (λ n. record (as_retry reason job.attempts now j) { attempts = n }) e

QueueStep-Counted : {q r : Queue} (id : ℕ) → QueueStep q r → Counted id q → Counted id r
unfolding enqueue_job complete_job fail_job starts
QueueStep-Counted {q} id (enqueue type subject delay max_attempts tenant now positive) h =
    let more =
      tries-append id q.jobs.rows
        ((enqueue_job type subject delay max_attempts tenant now q.jobs).0 ∷ []) in
    omega (arith, more, h)
QueueStep-Counted {q} id (claim worker limit now) h = claim-Counted id worker limit now q h
QueueStep-Counted {q} id (complete done_id attempt_no) h =
    let kept = patched-tries id done_id as_completed q.jobs.rows (λ j e. refl) in
    ground (arith, kept, h)
QueueStep-Counted {q} id (fail reason now job found) h =
    rw found (failed-Counted id reason now job q found h)

Queued-Counted :
    {start q : Queue} (id : ℕ)
    → start.jobs.rows ≡ []
    → start.trail ≡ []
    → Queued start q
    → Counted id q
unfolding starts tries
Queued-Counted id e t start_queue = rw (e, t) (omega arith)
Queued-Counted id e t (then_step before step) =
    QueueStep-Counted id step (Queued-Counted id e t before)

tries-IsWithin : (id : ℕ) (js : List Job) → All IsWithin js → tries id js ≤ limit_of id js
unfolding tries limit_of
tries-IsWithin id [] h = omega arith
tries-IsWithin id (j ∷ js) h =
    let rest = tries-IsWithin id js h.1 in
    let own = attempts-IsWithin j h.0 in
    elim (Bool-cases (j.id == id)) [
      | inl same ↦ rw same (omega (arith, rest, own))
      | inr other ↦ rw other (omega (arith, rest))
    ]

-- However workers claim, complete and fail the jobs of a queue that began empty, where jobs are
-- enqueued with a positive limit and fail with the limit of their row, a job is started, by the
-- trail of its attempts, at most as often as its limit.
pub jobs_start_bounded :
    {start q : Queue} (id : ℕ)
    → start.jobs.rows ≡ []
    → start.trail ≡ []
    → Queued start q
    → starts id q.trail ≤ limit_of id q.jobs.rows
jobs_start_bounded {start} {q} id e t steps =
    let counted = Queued-Counted id e t steps in
    let within = tries-IsWithin id q.jobs.rows (Queued-IsWithin e steps) in
    omega (arith, counted, within)
