-- ===== src/Payment/Table.antt =====
-- Reads and writes of payment.payments, with the transition trigger of
-- db/migrations/0017_retry_transitions.sql, and transactions (packages/shared/db.mjs).
use stablecoin_treasury.Prelude.{
  ℕ, Bool, true, false, ◌&&◌, Option, none, some, List, [], ◌∷◌, ◌++◌, ◌==◌, if◌then◌else◌, find,
}
use stablecoin_treasury.Prelude.Outcome.{Outcome, ok, err, ◌>>=◌}
use stablecoin_treasury.Payment.Types.{
  Status, pending_approval, approved, blocked, cancelled, executing, settled, failed, status_eq,
  Payment, PaymentEvent, Db, Error, not_found, invalid_transition,
}

-- The whitelist of the trigger.
unfoldable pub transition_allowed : Status → Status → Bool
transition_allowed pending_approval approved = true
transition_allowed pending_approval blocked = true
transition_allowed pending_approval cancelled = true
transition_allowed approved executing = true
transition_allowed approved blocked = true
transition_allowed approved cancelled = true
transition_allowed executing settled = true
transition_allowed executing failed = true
transition_allowed failed executing = true
transition_allowed failed cancelled = true
transition_allowed _ _ = false

-- `payment.enforce_and_log_transition` on an UPDATE: the events to log, or the exception.
unfoldable pub transition_trigger : Payment → Payment → Outcome Error (List PaymentEvent)
unfolding transition_allowed
transition_trigger old new =
    if status_eq new.status old.status
    then ok []
    else if transition_allowed old.status new.status
    then ok
        (record { payment_id = new.id; from_status = some old.status; to_status = new.status } ∷ [])
    else err invalid_transition

-- `WHERE id = $1 AND tenant_id = $2`
abbrev pub is_row : ℕ → ℕ → Payment → Bool
is_row id tenant p = p.id == id && p.tenant_id == tenant

abbrev pub find_row : ℕ → ℕ → List Payment → Option Payment
find_row id tenant = find (is_row id tenant)

-- `findPayment`
unfoldable pub find_payment : ℕ → ℕ → Db → Outcome Error Payment
find_payment id tenant db = elim (find_row id tenant db.payments) [
  | none ↦ err not_found
  | some p ↦ ok p
]

-- The rows after `UPDATE … SET … WHERE id AND tenant_id`.
abbrev pub write_row : ℕ → ℕ → Payment → List Payment → List Payment
write_row id tenant new [] = []
write_row id tenant new (p ∷ ps) =
    let rest = write_row id tenant new ps in if is_row id tenant p then new ∷ rest else p ∷ rest

-- `UPDATE payment.payments SET … WHERE id AND tenant_id RETURNING *` with the trigger. The id
-- is the primary key, so at most one row is updated.
unfoldable pub update_payment :
    ℕ → ℕ → (Payment → Payment) → Db → Outcome Error (Option Payment × Db)
unfolding transition_trigger
update_payment id tenant patch db = elim (find_row id tenant db.payments) [
  | none ↦ ok (none, db)
  | some old ↦ transition_trigger old (patch old) >>= λ logged. ok (
    some (patch old),
    record db {
      payments = write_row id tenant (patch old) db.payments;
      events = logged ++ db.events;
    },
  )
]

-- `withTransaction`: what was thrown rolls everything back.
abbrev pub with_transaction {ℓ} :
    {A : Type ℓ} → (Db → Outcome Error (A × Db)) → Db → Outcome Error A × Db
with_transaction f db = elim (f db) [ ok (a, db') ↦ (ok a, db') | err e ↦ (err e, db) ]

-- A handler that begins with a read which may throw.
abbrev pub on_found {ℓ} :
    {A : Type ℓ}
    → Outcome Error Payment
    → Db
    → (Payment → Outcome Error A × Db)
    → Outcome Error A × Db
on_found (err e) db f = (err e, db)
on_found (ok p) db f = f p
