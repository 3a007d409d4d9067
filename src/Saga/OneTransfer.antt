-- ===== src/Saga/OneTransfer.antt =====
-- At most one transfer for each payment in the life of a process.
use stablecoin_treasury.Prelude.{ℕ, List, ◌∷◌, ◌≤◌, [], length, select, map, All}
use stablecoin_treasury.Custody.Adapter.{Transfer, has_key}
use stablecoin_treasury.Saga.World.{World}
use stablecoin_treasury.Saga.Monad.{Fate, Ending, done, threw, crashed}
use stablecoin_treasury.Saga.Run.{Job, Answers}
use stablecoin_treasury.Saga.Settle.{execute_saga}
use stablecoin_treasury.Saga.Sent.{Sent}

-- One run after another, with what each meets.
pub record Attempted : Type 0 where
  pub answers : Answers
  pub job : Job
  pub fates : List Fate

-- A process that starts again has new adapters and no breakers: both are in its memory.
abbrev pub restarted : World → World
restarted w = record w {
  adapters = record { submissions = []; accepted = []; call_count = 0 };
  breakers = [];
}

-- The world after a run; a crash ends the process.
abbrev pub next_world : Ending (Unit {0}) → World
next_world (done _ n w) = w
next_world (threw e n w) = w
next_world (crashed w) = restarted w

unfoldable pub run_all : List Attempted → World → World
run_all [] w = w
run_all (r ∷ rs) w = run_all rs (next_world (execute_saga r.answers r.job r.fates w))

-- The transfers that a provider has accepted under a key.
unfoldable pub sends : ℕ → List Transfer → ℕ
sends key ts = length (select (has_key key) ts)

-- The transfers of a process: all for payments of a set, and at most one for each payment.
abbrev Single : (ℕ → Type 0) → List Transfer → Type 0
Single K ts = All (λ t. K t.idempotency_key) ts × ((key : ℕ) → sends key ts ≤ 1)

-- The payments of some runs.
abbrev pub payments_of : List Attempted → List ℕ
payments_of = map (λ r. r.job.payment_id)
