-- ===== src/Webhook/Receive.antt =====
-- `processWebhook` (services/api-gateway/src/webhooks.mjs). The payload of an event is left out.
use stablecoin_treasury.Prelude.{
  ℕ, Bool, not, ◌&&◌, Option, none, some, List, ◌∷◌, ◌==◌, if◌then◌else◌, find, any,
}
use stablecoin_treasury.Prelude.Strings.{Text, text_eq, is_empty}
use stablecoin_treasury.Prelude.Outcome.{Outcome, ok, err}
use stablecoin_treasury.Http.Routing.{hex_bytes}

-- A row of operations.providers; a missing secret is empty.
pub record Provider : Type 0 where
  pub id : Text
  pub tenant_id : ℕ
  pub webhook_secret : Text

pub data EventKind : Type 0 where
  settlement other_kind : EventKind

-- A row of platform.webhook_events.
pub record WebhookEvent : Type 0 where
  pub provider_id : Text
  pub tenant_id : ℕ
  pub external_id : Text

-- What a "process-settlement-webhook" job is enqueued for.
pub record SettlementJob : Type 0 where
  pub provider_id : Text
  pub tenant_id : ℕ
  pub event_id : Text

pub record WebhookDb : Type 0 where
  pub providers : List Provider
  pub events : List WebhookEvent
  pub jobs : List SettlementJob

-- A request: the provider of its path, `eventId` or `id` of the body (empty if missing), the kind
-- of its event, the raw body and the signature.
pub record Webhook : Type 0 where
  pub provider_id : Text
  pub event_id : Text
  pub kind : EventKind
  pub raw_body : Text
  pub signature : Text

-- PRODUCTION_MODE and DEMO_WEBHOOK_SECRET, and HMAC-SHA-256 in hexadecimal digits of a text under
-- a key.
pub record WebhookConfig : Type 0 where
  pub production : Bool
  pub demo_secret : Text
  pub hmac : Text → Text → Text

pub data WebhookError : Type 0 where
  missing_event_id unknown_provider missing_provider_secret invalid_signature : WebhookError
  enqueue_failed : WebhookError

pub data Receipt : Type 0 where
  already_processed processed : Receipt

-- `verifySignature`
unfoldable pub verify_signature : WebhookConfig → Text → Text → Text → Bool
unfolding hex_bytes text_eq
verify_signature cfg raw_body secret signature =
    text_eq (hex_bytes signature) (hex_bytes (cfg.hmac secret raw_body))

-- `resolveProvider`
unfoldable pub resolve_provider : Text → List Provider → Option Provider
unfolding text_eq
resolve_provider id = find (λ p. text_eq p.id id)

-- The secret that a provider signs with.
abbrev pub secret_of : WebhookConfig → Provider → Outcome WebhookError Text
secret_of cfg p =
    if not (is_empty p.webhook_secret)
    then ok p.webhook_secret
    else if not cfg.production
    then ok cfg.demo_secret
    else err missing_provider_secret

-- The unique key of webhook_events.
unfoldable pub same_event : Text → ℕ → Text → WebhookEvent → Bool
unfolding text_eq
same_event provider tenant external e =
    text_eq e.provider_id provider && (e.tenant_id == tenant && text_eq e.external_id external)

-- After the insert: a settlement is enqueued, on a connection of its own that may fail.
unfoldable pub enqueue_settlement :
    Bool → Webhook → ℕ → WebhookDb → Outcome WebhookError Receipt × WebhookDb
enqueue_settlement connected w tenant db = elim w.kind [
  | other_kind ↦ (ok processed, db)
  | settlement ↦
      if connected
      then (
        ok processed,
        record db {
          jobs =
              record { provider_id = w.provider_id; tenant_id = tenant; event_id = w.event_id }
              ∷ db.jobs;
        },
      )
      else (err enqueue_failed, db)
]

-- The callback of `runWithTenant`.
unfoldable pub record_event :
    Bool → Webhook → ℕ → WebhookDb → Outcome WebhookError Receipt × WebhookDb
unfolding same_event enqueue_settlement
record_event connected w tenant db =
    if any (same_event w.provider_id tenant w.event_id) db.events
    then (ok already_processed, db)
    else enqueue_settlement connected w tenant (record db {
      events =
          record { provider_id = w.provider_id; tenant_id = tenant; external_id = w.event_id }
          ∷ db.events;
    })

unfoldable pub signed_event :
    WebhookConfig
    → Bool
    → Webhook
    → Provider
    → WebhookDb
    → Outcome WebhookError Text
    → Outcome WebhookError Receipt × WebhookDb
unfolding verify_signature record_event
signed_event cfg connected w p db (err e) = (err e, db)
signed_event cfg connected w p db (ok secret) =
    if not (verify_signature cfg w.raw_body secret w.signature)
    then (err invalid_signature, db)
    else record_event connected w p.tenant_id db

unfoldable pub provider_event :
    WebhookConfig
    → Bool
    → Webhook
    → WebhookDb
    → Option Provider
    → Outcome WebhookError Receipt × WebhookDb
unfolding signed_event
provider_event cfg connected w db none = (err unknown_provider, db)
provider_event cfg connected w db (some p) = signed_event cfg connected w p db (secret_of cfg p)

-- `processWebhook`; the Boolean is whether the queue can be reached.
unfoldable pub process_webhook :
    WebhookConfig → Bool → Webhook → WebhookDb → Outcome WebhookError Receipt × WebhookDb
unfolding provider_event resolve_provider
process_webhook cfg connected w db =
    if is_empty w.event_id
    then (err missing_event_id, db)
    else provider_event cfg connected w db (resolve_provider w.provider_id db.providers)
