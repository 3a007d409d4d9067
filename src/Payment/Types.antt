-- ===== src/Payment/Types.antt =====
-- The tables of the `payment` schema and what a request brings (services/payment-service/src,
-- db/migrations). Money is in cents. An empty provider reference is `none`.
use Prim.Native.String.{String}
use stablecoin_treasury.Prelude.{ℕ, List, Option, Bool, ◌==◌}
use stablecoin_treasury.Platform.Events.{OutboxRow}
use stablecoin_treasury.Platform.Jobs.{JobTable}

pub data Status : Type 0 where
  pending_approval approved blocked cancelled executing settled failed : Status

abbrev code : Status → ℕ
code pending_approval = 0
code approved = 1
code blocked = 2
code cancelled = 3
code executing = 4
code settled = 5
code failed = 6

abbrev pub status_eq : Status → Status → Bool
status_eq s t = code s == code t

-- A row of payment.payments.
pub record Payment : Type 0 where
  pub id : ℕ
  pub tenant_id : ℕ
  pub reference : ℕ
  pub type : String
  pub source_wallet_id : ℕ
  pub counterparty_id : ℕ
  pub asset : String
  pub amount : ℕ
  pub fee : ℕ
  pub status : Status
  pub approvals : ℕ
  pub required_approvals : ℕ
  pub screen_result : String
  pub created_at : ℕ
  pub settled_at : Option ℕ
  pub provider_ref : Option ℕ
  pub chain_ref : Option ℕ
  pub memo : String
  pub created_by : Option ℕ

-- A row of payment.payment_approvals.
pub record Approval : Type 0 where
  pub tenant_id : ℕ
  pub payment_id : ℕ
  pub approver_id : ℕ

-- A row of payment.payment_events, written by the trigger.
pub record PaymentEvent : Type 0 where
  pub payment_id : ℕ
  pub from_status : Option Status
  pub to_status : Status

pub data KeyStatus : Type 0 where
  key_pending key_done : KeyStatus

-- A row of payment.idempotency_keys for the action "create".
pub record KeyRow : Type 0 where
  pub tenant_id : ℕ
  pub idempotency_key : ℕ
  pub request_hash : ℕ
  pub status : KeyStatus
  pub payment_id : Option ℕ
  pub created_at : ℕ

pub record Db : Type 0 where
  pub payments : List Payment
  pub approvals : List Approval
  pub events : List PaymentEvent
  pub keys : List KeyRow
  pub outbox : List OutboxRow
  pub jobs : JobTable
  pub next_reference : ℕ

-- What a handler throws: the codes of its `httpError` calls, a refusal of the database, a
-- TypeError on a missing row, a connection that broke, and what a call of another service threw.
pub data Error : Type 0 where
  not_found invalid_state review_required self_approval_forbidden : Error
  already_approved concurrent_modification invalid_amount : Error
  idempotency_key_reuse idempotency_in_progress : Error
  invalid_transition duplicate_id missing_row : Error
  connection_lost circuit_open adapter_unavailable debit_refused policy_unavailable : Error
  upstream : ℕ → Error

pub data Decision : Type 0 where
  clear review block : Decision

-- The acting user of a request.
pub record User : Type 0 where
  pub id : ℕ
  pub display : ℕ

-- The actors that are no users: "system" and "policy:auto".
abbrev pub system_id : ℕ
system_id = 0

abbrev pub policy_auto_id : ℕ
policy_auto_id = 1
