-- ===== src/Platform/Events.antt =====
-- Outbox events (packages/shared/outbox.mjs). Identifiers are numbers, since the code only
-- compares them; the free text of a payload (titles and details) is left out.
use stablecoin_treasury.Prelude.{ℕ, List, [], ◌∷◌, ◌++◌, Option, none, some, map}

pub data EventType : Type 0 where
  audit_event_recorded exception_opened alert_created : EventType
  other_event : ℕ → EventType

-- The `action` field of an audit event.
pub data Action : Type 0 where
  payment_created payment_auto_approved payment_blocked payment_approved : Action
  execution_blocked execution_enqueued payment_cancelled payment_expired payment_settled : Action
  job_dead_lettered : Action

-- `actor` is the display name of who acted, `object` the payment's reference.
pub record Payload : Type 0 where
  pub actor : ℕ
  pub action : Action
  pub object : ℕ

pub record OutboxEvent : Type 0 where
  pub tenant_id : Option ℕ
  pub aggregate_id : ℕ
  pub event_type : EventType
  pub payload : Payload

-- A row of platform.outbox_events as `appendOutboxEvents` writes it.
pub record OutboxRow : Type 0 where
  pub tenant_id : ℕ
  pub aggregate_id : ℕ
  pub event_type : EventType
  pub payload : Payload

-- DEFAULT_TENANT_ID
abbrev pub default_tenant_id : ℕ
default_tenant_id = 1

abbrev tenant_or_default : Option ℕ → ℕ
tenant_or_default none = default_tenant_id
tenant_or_default (some t) = t

-- `appendOutboxEvents`: one INSERT for each event, on the caller's transaction.
unfoldable pub append_outbox_events : List OutboxRow → List OutboxEvent → List OutboxRow
append_outbox_events outbox [] = outbox
append_outbox_events outbox (e ∷ es) =
    append_outbox_events
      (outbox
        ++ record {
          tenant_id = tenant_or_default e.tenant_id;
          aggregate_id = e.aggregate_id;
          event_type = e.event_type;
          payload = e.payload;
        }
          ∷ [])
      es

abbrev for_tenant : ℕ → OutboxEvent → OutboxEvent
for_tenant t e = record e { tenant_id = some t }

-- `withTenant` (packages/shared/payment.mjs)
abbrev pub with_tenant : ℕ → List OutboxEvent → List OutboxEvent
with_tenant t = map (for_tenant t)
