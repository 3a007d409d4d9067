-- ===== src/Payment/Settlement.antt =====
-- The statements on payment.payments of the settlement saga
-- (services/job-worker/src/handlers/payment-saga.mjs). Each is committed alone.
use stablecoin_treasury.Prelude.{ℕ, Option, some}
use stablecoin_treasury.Prelude.Outcome.{Outcome}
use stablecoin_treasury.Payment.Types.{executing, settled, failed, Payment, Db, Error}
use stablecoin_treasury.Payment.Table.{update_payment, with_transaction}
use stablecoin_treasury.Payment.Execute.{guarded_update}

-- `UPDATE … SET provider_ref, chain_ref`
abbrev pub with_refs : Option ℕ → Option ℕ → Payment → Payment
with_refs provider chain p = record p { provider_ref = provider; chain_ref = chain }

unfoldable pub persist_refs : ℕ → ℕ → Option ℕ → Option ℕ → Db → Outcome Error (Option Payment) × Db
persist_refs id tenant provider chain =
    with_transaction (update_payment id tenant (with_refs provider chain))

-- `failPayment`
unfoldable pub fail_payment : ℕ → ℕ → Db → Outcome Error (Unit {0}) × Db
fail_payment id tenant = with_transaction (guarded_update id tenant executing failed)

-- `UPDATE … SET status = 'Settled', settled_at`: it does not look at the status; the trigger does.
abbrev pub as_settled : ℕ → Payment → Payment
as_settled at p = record p { status = settled; settled_at = some at }

unfoldable pub settle_payment : ℕ → ℕ → ℕ → Db → Outcome Error (Option Payment) × Db
settle_payment id tenant at = with_transaction (update_payment id tenant (as_settled at))
