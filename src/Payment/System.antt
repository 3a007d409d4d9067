-- ===== src/Payment/System.antt =====
-- The payment tables as a system: every transaction of every handler is a step, in any order. A
-- handler's first read `seen` may be of any database.
use stablecoin_treasury.Prelude.{ℕ, Option, []}
use stablecoin_treasury.Prelude.Outcome.{Outcome}
use stablecoin_treasury.Payment.Types.{Db, Error, Decision, User}
use stablecoin_treasury.Payment.Approve.{ApprovalContext, approve_payment}
use stablecoin_treasury.Payment.Execute.{
  execute_payment, cancel_payment, retry_execution, expire_stale_payments, sweep_idempotency_keys,
}
use stablecoin_treasury.Payment.Create.{CreateContext, Input, create_body}
use stablecoin_treasury.Payment.Keys.{reserve_idempotency_key, release_idempotency_key}
use stablecoin_treasury.Payment.Settlement.{persist_refs, fail_payment, settle_payment}

pub data Step (db : Db) : Db → Type 0 where
  reserve : (key hash tenant now : ℕ) → Step db (reserve_idempotency_key key hash tenant now db).1
  create :
      (ctx : CreateContext) (input : Input) (key : Option ℕ) (tenant : ℕ) (user : Option User)
      → Step db (create_body ctx input key tenant user db).1
  release : (key : Option ℕ) (tenant : ℕ) → Step db (release_idempotency_key key tenant db)
  approve :
      (ctx : ApprovalContext) (id tenant : ℕ) (user : Option User) (seen : Db)
      → Step db (approve_payment ctx id tenant user seen db).1
  execute :
      (evaluation : Outcome Error Decision) (id tenant now : ℕ) (seen : Db)
      → Step db (execute_payment evaluation id tenant now seen db).1
  cancel :
      (id tenant : ℕ) (user : Option User) (seen : Db)
      → Step db (cancel_payment id tenant user seen db).1
  retry : (id tenant now : ℕ) (seen : Db) → Step db (retry_execution id tenant now seen db).1
  expire : (tenant now : ℕ) → Step db (expire_stale_payments tenant now db)
  sweep : (now : ℕ) → Step db (sweep_idempotency_keys now db)
  refs :
      (id tenant : ℕ) (provider chain : Option ℕ)
      → Step db (persist_refs id tenant provider chain db).1
  fail : (id tenant : ℕ) → Step db (fail_payment id tenant db).1
  settle : (id tenant at : ℕ) → Step db (settle_payment id tenant at db).1

pub data Reach (start : Db) : Db → Type 0 where
  here : Reach start start
  next : {db db' : Db} → Reach start db → Step db db' → Reach start db'

abbrev pub empty_db : Db
empty_db = record {
  payments = [];
  approvals = [];
  events = [];
  keys = [];
  outbox = [];
  jobs = record { rows = []; next_id = 1 };
  next_reference = 1005;
}
