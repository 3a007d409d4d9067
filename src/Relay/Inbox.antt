-- ===== src/Relay/Inbox.antt =====
-- The inbox guard (packages/shared/outbox.mjs).
use stablecoin_treasury.Prelude.{
  ℕ, Bool, true, false, not, ◌&&◌, Option, none, some, List, ◌∷◌, ◌==◌, if◌then◌else◌, any,
}
use stablecoin_treasury.Prelude.Outcome.{Outcome, ok, err}
use stablecoin_treasury.Platform.Events.{
  EventType, audit_event_recorded, exception_opened, alert_created, other_event,
}

-- The services that events go to, each with its path.
pub data Consumer : Type 0 where
  operations_audit operations_alerts reconciliation_exceptions : Consumer

-- EVENT_ROUTES
abbrev pub event_route : EventType → Option Consumer
event_route audit_event_recorded = some operations_audit
event_route exception_opened = some reconciliation_exceptions
event_route alert_created = some operations_alerts
event_route (other_event _) = none

-- The name that a service gives to the guard: two of the paths belong to one service.
pub data Service : Type 0 where
  operations reconciliation : Service

abbrev pub service_of : Consumer → Service
service_of operations_audit = operations
service_of operations_alerts = operations
service_of reconciliation_exceptions = reconciliation

abbrev pub same_service : Service → Service → Bool
same_service operations operations = true
same_service operations reconciliation = false
same_service reconciliation operations = false
same_service reconciliation reconciliation = true

abbrev pub same_claim : ℕ × Service → ℕ × Service → Bool
same_claim a b = a.0 == b.0 && same_service a.1 b.1

-- platform.inbox_events and the tables that the handlers write.
pub record Inbox {ℓ} (S : Type ℓ) : Type ℓ where
  pub claims : List (ℕ × Service)
  pub state : S

pub data Handled {ℓ} (A : Type ℓ) : Type ℓ where
  duplicate : Handled A
  done : A → Handled A

-- `claimInboxEvent`: whether the row was new, and the rows.
unfoldable pub claim_inbox_event : ℕ → Service → List (ℕ × Service) → Bool × List (ℕ × Service)
claim_inbox_event event_id service claims =
    if any (same_claim (event_id, service)) claims
    then (false, claims)
    else (true, (event_id, service) ∷ claims)

-- A handler that throws rolls the transaction back.
abbrev pub committed {ℓ κ μ} :
    {S : Type ℓ} {A : Type κ} {E : Type μ}
    → List (ℕ × Service)
    → Outcome E (A × S)
    → Inbox S
    → Outcome E (Handled A) × Inbox S
committed claims (err e) inbox = (err e, inbox)
committed claims (ok (a, s)) inbox = (ok (done a), record { claims = claims; state = s })

-- `withInboxDedup`; a request without an event id runs its handler alone.
unfoldable pub with_inbox_dedup {ℓ κ μ} :
    {S : Type ℓ} {A : Type κ} {E : Type μ}
    → Option ℕ
    → Service
    → (S → Outcome E (A × S))
    → Inbox S
    → Outcome E (Handled A) × Inbox S
unfolding claim_inbox_event
with_inbox_dedup none service handler inbox = committed inbox.claims (handler inbox.state) inbox
with_inbox_dedup (some event_id) service handler inbox =
    let (fresh, claims) = claim_inbox_event event_id service inbox.claims in
    if not fresh then (ok duplicate, inbox) else committed claims (handler inbox.state) inbox
