-- ===== src/Payment/Replay.antt =====
-- A creation request whose idempotency key is taken.
use stablecoin_treasury.Prelude.{ℕ, ◌≡◌, Option, some, arith, find}
use stablecoin_treasury.Payment.Types.{KeyRow, Db, User}
use stablecoin_treasury.Payment.Keys.{is_key, reserve_idempotency_key}
use stablecoin_treasury.Payment.Create.{CreateContext, Input, create_payment}

-- A request with a key that its tenant has used before, whether that request is done, is still
-- under way, or had another body, changes nothing: no payment, approval, event, key or outbox
-- row is written, whatever the other services would answer.
pub create_payment-replay :
    (ctx : CreateContext) (input : Input) (hash key tenant : ℕ) (user : Option User)
    (between : Db → Db) (db : Db) (k : KeyRow)
    → find (is_key key tenant) db.keys ≡ some k
    → (create_payment ctx input hash (some key) tenant user between db).1 ≡ db
unfolding create_payment reserve_idempotency_key
create_payment-replay ctx input hash key tenant user between db k taken =
    rw (taken, create_payment, reserve_idempotency_key) (ground arith)
