-- ===== src/Relay/Handled.antt =====
-- What it is for an event to be handled, and one request to a consumer.
use stablecoin_treasury.Prelude.{
  ℕ, ◌≡◌, refl, ap, subst, ◌⊎◌, inl, inr, Bool, true, false, Option, none, some, [], ◌∷◌, ==_refl,
  Bool-cases, any,
}
use stablecoin_treasury.Relay.Inbox.{
  Consumer, event_route, Service, operations, reconciliation, service_of, same_claim, Inbox,
  claim_inbox_event, with_inbox_dedup,
}
use stablecoin_treasury.Relay.Worker.{
  OutboxItem, Log, Accepts, handle, succeeded, Fate, replied, reply_lost, lost, died, post_event,
}

-- An event is in the log of the handled ones.
abbrev pub IsHandled : Log → ℕ × Service → Type 0
IsHandled log e = any (same_claim e) log ≡ true

-- No event stands in the log twice.
unfoldable pub HandledOnce : Log → Type 0
HandledOnce [] = Unit
HandledOnce (e ∷ es) = (any (same_claim e) es ≡ false) × HandledOnce es

-- The claims are those of the handled events.
unfoldable pub Claimed : Inbox Log → Type 0
unfolding HandledOnce
Claimed inbox = (inbox.claims ≡ inbox.state) × HandledOnce inbox.state

-- What was handled stays handled.
abbrev pub Grown : Log → Log → Type 0
Grown log log' = (e : ℕ × Service) → IsHandled log e → IsHandled log' e

-- A published row that has a route has been handled.
abbrev PublishedBy : Log → ℕ → Option ℕ → Option Consumer → Type 0
PublishedBy log id none route = Unit
PublishedBy log id (some t) none = Unit
PublishedBy log id (some t) (some consumer) = IsHandled log (id, service_of consumer)

abbrev pub PublishedHandled : Log → OutboxItem → Type 0
PublishedHandled log r = PublishedBy log r.id r.published_at (event_route r.event_type)

grown_by : (log : Log) (x e : ℕ × Service) → IsHandled log e → IsHandled (x ∷ log) e
grown_by log x e h = elim (Bool-cases (same_claim e x)) [ inl t ↦ rw t refl | inr f ↦ rw f h ]

pub published_more :
    (log log' : Log) (id : ℕ) (at : Option ℕ) (route : Option Consumer)
    → Grown log log'
    → PublishedBy log id at route
    → PublishedBy log' id at route
published_more log log' id none route g h = tt
published_more log log' id (some t) none g h = tt
published_more log log' id (some t) (some consumer) g h = g (id, service_of consumer) h

-- What a request to a consumer does, and what a reply that is no error means.
abbrev pub Posted : ℕ × Service → Inbox Log → Bool → Inbox Log → Type 0
Posted e inbox accepted inbox' =
    Claimed inbox'
    × Grown inbox.state inbox'.state
    × ((accepted ≡ false) ⊎ IsHandled inbox'.state e)

same_claim_refl : (e : ℕ × Service) → same_claim e e ≡ true
same_claim_refl (id, operations) = rw (==_refl id) refl
same_claim_refl (id, reconciliation) = rw (==_refl id) refl

consumed :
    (accepts : Accepts) (id : ℕ) (service : Service) (inbox : Inbox Log)
    → Claimed inbox
    → Posted
        (id, service)
        inbox
        (succeeded (with_inbox_dedup (some id) service (handle accepts (id, service)) inbox).0)
        (with_inbox_dedup (some id) service (handle accepts (id, service)) inbox).1
unfolding with_inbox_dedup claim_inbox_event HandledOnce Claimed
consumed accepts id service inbox h =
    elim (Bool-cases (any (same_claim (id, service)) inbox.claims)) [
      | inl seen ↦ rw seen (h, (λ e k. k), inr (subst (λ l. IsHandled l (id, service)) h.0 seen))
      | inr fresh ↦ elim (Bool-cases (accepts (id, service) inbox.state)) [
        | inr refused ↦ rw (fresh, refused) (h, (λ e k. k), inl refl)
        | inl accepted ↦
            rw (fresh, accepted)
              (
                (
                  ap (λ l. (id, service) ∷ l) h.0,
                  (subst (λ l. any (same_claim (id, service)) l ≡ false) h.0 fresh, h.1),
                ),
                grown_by inbox.state (id, service),
                inr (rw (same_claim_refl (id, service)) refl),
              )
      ]
    ]

pub posted :
    (accepts : Accepts) (fate : Fate) (id : ℕ) (consumer : Consumer) (inbox : Inbox Log)
    → Claimed inbox
    → Posted
        (id, service_of consumer)
        inbox
        (post_event accepts fate id consumer inbox).0
        (post_event accepts fate id consumer inbox).1
unfolding post_event
posted accepts lost id consumer inbox h = (h, (λ e k. k), inl refl)
posted accepts replied id consumer inbox h = consumed accepts id (service_of consumer) inbox h
posted accepts reply_lost id consumer inbox h =
    let c = consumed accepts id (service_of consumer) inbox h in (c.0, c.1, inl refl)
posted accepts died id consumer inbox h =
    let c = consumed accepts id (service_of consumer) inbox h in (c.0, c.1, inl refl)
