-- ===== src/Payment/Keys.antt =====
-- The idempotency keys of `createPayment` (services/payment-service/src/idempotency.mjs).
use stablecoin_treasury.Prelude.{
  ℕ, Bool, not, ◌&&◌, Option, none, some, List, [], ◌∷◌, ◌==◌, if◌then◌else◌, find, select,
}
use stablecoin_treasury.Payment.Types.{key_pending, key_done, KeyRow, Db}

abbrev pub is_key : ℕ → ℕ → KeyRow → Bool
is_key key tenant k = k.idempotency_key == key && k.tenant_id == tenant

-- The outcome of a reservation.
pub data Reservation : Type 0 where
  reserved hash_mismatch in_progress : Reservation
  done : ℕ → Reservation

-- What a reservation of a key that is there comes to.
abbrev pub existing_key : ℕ → KeyRow → Reservation
existing_key hash k = if not (k.request_hash == hash) then hash_mismatch else elim (k.status) [
  | key_pending ↦ in_progress
  | key_done ↦ elim (k.payment_id) [ none ↦ in_progress | some id ↦ done id ]
]

-- `reserveIdempotencyKey`: INSERT … ON CONFLICT DO NOTHING, then the row that is there.
unfoldable pub reserve_idempotency_key : ℕ → ℕ → ℕ → ℕ → Db → Reservation × Db
reserve_idempotency_key key hash tenant now db = elim (find (is_key key tenant) db.keys) [
  | some k ↦ (existing_key hash k, db)
  | none ↦ (
    reserved,
    record db {
      keys =
          record {
            tenant_id = tenant;
            idempotency_key = key;
            request_hash = hash;
            status = key_pending;
            payment_id = none;
            created_at = now;
          }
          ∷ db.keys;
    },
  )
]

abbrev pub complete_row : ℕ → ℕ → ℕ → KeyRow → KeyRow
complete_row key tenant payment_id k =
    if is_key key tenant k then record k { status = key_done; payment_id = some payment_id } else k

abbrev pub complete_rows : ℕ → ℕ → ℕ → List KeyRow → List KeyRow
complete_rows key tenant payment_id [] = []
complete_rows key tenant payment_id (k ∷ ks) =
    complete_row key tenant payment_id k ∷ complete_rows key tenant payment_id ks

-- `completeIdempotencyKey`
unfoldable pub complete_idempotency_key : Option ℕ → ℕ → ℕ → Db → Db
complete_idempotency_key none tenant payment_id db = db
complete_idempotency_key (some key) tenant payment_id db = record db {
  keys = complete_rows key tenant payment_id db.keys;
}

-- `releaseIdempotencyKey`
unfoldable pub release_idempotency_key : Option ℕ → ℕ → Db → Db
release_idempotency_key none tenant db = db
release_idempotency_key (some key) tenant db = record db {
  keys = select (λ k. not (is_key key tenant k)) db.keys;
}
