-- ===== src/Custody/Adapter.antt =====
-- The adapters and their registry (packages/shared/adapters/custody.mjs). An adapter's map of
-- results by idempotency key is its list of transfers; the random references of a new transfer
-- are an argument.
use stablecoin_treasury.Prelude.{
  ℕ, suc, Bool, Option, none, some, List, ◌∷◌, ◌==◌, if◌then◌else◌, find,
}

-- A transfer that a provider has accepted, with the result that it gave.
pub record Transfer : Type 0 where
  pub idempotency_key : ℕ
  pub provider_ref : ℕ
  pub chain_ref : ℕ

-- `adapter` of a row of operations.providers.
pub data AdapterKey : Type 0 where
  simulated crash_once_then_idempotent unknown_adapter : AdapterKey

-- The instances of one process.
pub record Adapters : Type 0 where
  pub submissions : List Transfer
  pub accepted : List Transfer
  pub call_count : ℕ

pub record ProviderRow : Type 0 where
  pub id : ℕ
  pub adapter : AdapterKey

-- `payment`'s references and the random ones, and the key of the request.
pub record TransferRequest : Type 0 where
  pub idempotency_key : ℕ
  pub provider_ref : Option ℕ
  pub chain_ref : Option ℕ
  pub random_provider_ref : ℕ
  pub random_chain_ref : ℕ

abbrev pub has_key : ℕ → Transfer → Bool
has_key key t = t.idempotency_key == key

abbrev pub or_else : Option ℕ → ℕ → ℕ
or_else none d = d
or_else (some n) d = n

-- `SimulatedCustodyAdapter.submitTransfer`
abbrev pub simulated_new : TransferRequest → Transfer
simulated_new r = record {
  idempotency_key = r.idempotency_key;
  provider_ref = or_else r.provider_ref r.random_provider_ref;
  chain_ref = or_else r.chain_ref r.random_chain_ref;
}

abbrev pub simulated_submit_on :
    TransferRequest → Adapters → Option Transfer → Option Transfer × Adapters
simulated_submit_on r s (some t) = (some t, s)
simulated_submit_on r s none =
    (some (simulated_new r), record s { submissions = simulated_new r ∷ s.submissions })

unfoldable pub simulated_submit : TransferRequest → Adapters → Option Transfer × Adapters
simulated_submit r s = simulated_submit_on r s (find (has_key r.idempotency_key) s.submissions)

-- `CrashOnceThenIdempotentAdapter.submitTransfer`; `none` is a throw.
abbrev pub crash_new : TransferRequest → Transfer
crash_new r = record {
  idempotency_key = r.idempotency_key;
  provider_ref = r.idempotency_key;
  chain_ref = r.idempotency_key;
}

abbrev pub crash_submit_on :
    TransferRequest → Adapters → Option Transfer → Option Transfer × Adapters
crash_submit_on r s (some t) = (some t, s)
crash_submit_on r s none =
    let stored = record s { accepted = crash_new r ∷ s.accepted } in
    if s.call_count == 1 then (none, stored) else (some (crash_new r), stored)

unfoldable pub crash_submit : TransferRequest → Adapters → Option Transfer × Adapters
crash_submit r s =
    crash_submit_on r (record s { call_count = suc s.call_count })
      (find (has_key r.idempotency_key) s.accepted)

-- `resolveAdapter`: the key of a provider's row, if the registry has a factory for it;
-- `crash_double` is the environment variable CUSTODY_TEST_CRASH_ADAPTER.
abbrev registered : Bool → AdapterKey → Option AdapterKey
registered crash_double simulated = some simulated
registered crash_double crash_once_then_idempotent =
    if crash_double then some crash_once_then_idempotent else none
registered crash_double unknown_adapter = none

abbrev adapter_of : Bool → Option ProviderRow → Option AdapterKey
adapter_of crash_double none = none
adapter_of crash_double (some row) = registered crash_double row.adapter

unfoldable pub resolve_adapter : Bool → ℕ → List ProviderRow → Option AdapterKey
resolve_adapter crash_double id rows = adapter_of crash_double (find (λ row. row.id == id) rows)

-- `submitTransfer` of the adapter that was resolved.
abbrev pub submit_transfer : AdapterKey → TransferRequest → Adapters → Option Transfer × Adapters
submit_transfer simulated r s = simulated_submit r s
submit_transfer crash_once_then_idempotent r s = crash_submit r s
submit_transfer unknown_adapter r s = (none, s)
