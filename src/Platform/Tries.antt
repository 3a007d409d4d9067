-- ===== src/Platform/Tries.antt =====
-- The starts and the attempts of a job, and what a claim adds to them.
use stablecoin_treasury.Prelude.{
  ℕ, zero, suc, ◌+◌, ◌≤◌, ◌≡◌, refl, sym, ap, subst, ◌∙◌, inl, inr, Bool, true, false, ◌&&◌, List,
  [], ◌∷◌, ◌++◌, map, arith, leb, ◌==◌, if◌then◌else◌, ==_iff, Bool-cases, select, any,
}
use stablecoin_treasury.Platform.Jobs.{Job}
use stablecoin_treasury.Platform.Queue.{
  JobOutcome, started, success, failure, dead_letter, JobAttempt, is_due, insert_by_run_at,
  sort_by_run_at, take, claim_row, start_attempt,
}

abbrev is_start : JobOutcome → Bool
is_start started = true
is_start success = false
is_start failure = false
is_start dead_letter = false

-- How often a job was started: its rows of that outcome in the trail.
unfoldable pub starts : ℕ → List JobAttempt → ℕ
starts id [] = 0
starts id (a ∷ trail) = (if a.job_id == id && is_start a.outcome then 1 else 0) + starts id trail

-- The limit of the rows with an id. It is the primary key, so at most one row has it.
unfoldable pub limit_of : ℕ → List Job → ℕ
limit_of id [] = 0
limit_of id (j ∷ js) = (if j.id == id then j.max_attempts else 0) + limit_of id js

-- The attempts that the row of a job counts.
unfoldable pub tries : ℕ → List Job → ℕ
tries id [] = 0
tries id (j ∷ js) = (if j.id == id then j.attempts else 0) + tries id js

unfoldable pub count_id : ℕ → List Job → ℕ
count_id id [] = 0
count_id id (j ∷ js) = (if j.id == id then 1 else 0) + count_id id js

pub count_id-take : (id n : ℕ) (js : List Job) → count_id id (take n js) ≤ count_id id js
unfolding count_id take
count_id-take id zero js = ground arith
count_id-take id (suc n) [] = ground arith
count_id-take id (suc n) (j ∷ js) = let rest = count_id-take id n js in omega (arith, rest)

count_id-insert :
    (id : ℕ) (j : Job) (js : List Job)
    → count_id id (insert_by_run_at j js) ≡ (if j.id == id then 1 else 0) + count_id id js
unfolding count_id insert_by_run_at
count_id-insert id j [] = refl
count_id-insert id j (k ∷ ks) = elim (Bool-cases (leb j.run_at k.run_at)) [
  | inl first ↦ rw first refl
  | inr later ↦ rw later (omega (arith, count_id-insert id j ks))
]

pub count_id-sort : (id : ℕ) (js : List Job) → count_id id (sort_by_run_at js) ≡ count_id id js
unfolding count_id sort_by_run_at
count_id-sort id [] = refl
count_id-sort id (j ∷ js) =
    count_id-insert id j (sort_by_run_at js)
    ∙ ap (λ n. (if j.id == id then 1 else 0) + n) (count_id-sort id js)

pub count_id-any : (id : ℕ) (js : List Job) → any (λ k. k.id == id) js ≡ false → count_id id js ≡ 0
unfolding count_id
count_id-any id [] h = refl
count_id-any id (j ∷ js) h = elim (Bool-cases (j.id == id)) [
  | inl own ↦ cc (rw own at h)
  | inr other ↦ rw other (omega (arith, count_id-any id js (rw other at h)))
]

-- Every claimed row counts one attempt more.
pub claimed-tries :
    (id worker now : ℕ) (due rows : List Job)
    → any (λ k. k.id == id) due ≡ true
    → tries id rows + count_id id (select (is_due now) rows)
      ≤ tries id (map (claim_row worker now due) rows)
unfolding tries count_id claim_row
claimed-tries id worker now due [] h = omega arith
claimed-tries id worker now due (j ∷ js) h =
    let rest = claimed-tries id worker now due js h in
    elim (Bool-cases (is_due now j)) [
      | inr not_due ↦ rw not_due (omega (arith, rest))
      | inl ready ↦ elim (Bool-cases (j.id == id)) [
        | inl own ↦
            let picked : any (λ k. k.id == j.id) due ≡ true =
              subst (λ i. any (λ k. k.id == i) due ≡ true) (sym ((==_iff j.id id).0 own)) h in
            rw (ready, picked, own) (omega (arith, rest))
        | inr other ↦ elim (Bool-cases (any (λ k. k.id == j.id) due)) [
          | inl picked ↦ rw (ready, picked, other) (omega (arith, rest))
          | inr passed_over ↦ rw (ready, passed_over, other) (omega (arith, rest))
        ]
      ]
    ]

pub kept-tries :
    (id worker now : ℕ) (due rows : List Job)
    → tries id rows ≤ tries id (map (claim_row worker now due) rows)
unfolding tries claim_row
kept-tries id worker now due [] = omega arith
kept-tries id worker now due (j ∷ js) =
    let rest = kept-tries id worker now due js in
    elim (Bool-cases (is_due now j && any (λ k. k.id == j.id) due)) [
      | inl picked ↦ elim (Bool-cases (j.id == id)) [
        | inl own ↦ rw (picked, own) (omega (arith, rest))
        | inr other ↦ rw (picked, other) (omega (arith, rest))
      ]
      | inr passed_over ↦ rw passed_over (omega (arith, rest))
    ]

pub starts-append :
    (id : ℕ) (due : List Job) (trail : List JobAttempt)
    → starts id (map start_attempt due ++ trail) ≡ count_id id due + starts id trail
unfolding starts count_id
starts-append id [] trail = omega arith
starts-append id (j ∷ js) trail = elim (Bool-cases (j.id == id)) [
  | inl own ↦ rw own (omega (arith, starts-append id js trail))
  | inr other ↦ rw other (omega (arith, starts-append id js trail))
]
