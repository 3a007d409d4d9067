-- ===== src/Webhook/Laws.antt =====
-- Which webhooks count, and how often.
use stablecoin_treasury.Prelude.{
  ℕ, ◌≡◌, refl, inl, inr, Bool, true, some, List, ◌∷◌, Bool-cases, any, sym, subst, ◌∙◌, false,
  ==_refl, ◌≢◌, ◌⊎◌, not, [], if◌then◌else◌, find-passes, In, find-In,
}
use stablecoin_treasury.Prelude.Strings.{Text, is_empty, text_eq_refl, text_eq, text_eq_sound}
use stablecoin_treasury.Prelude.Outcome.{ok, err}
use stablecoin_treasury.Http.Routing.{hex_bytes}
use stablecoin_treasury.Webhook.Receive.{
  Provider, WebhookDb, Webhook, WebhookConfig, Receipt, verify_signature, resolve_provider,
  secret_of, same_event, record_event, signed_event, provider_event, process_webhook, EventKind,
  settlement, other_kind, already_processed, enqueue_settlement, WebhookEvent, SettlementJob,
  missing_provider_secret,
}
use stablecoin_treasury.Webhook.Taken.{Signed, taken-Signed}

-- The secret of a provider: its own, or outside of production the one for demonstrations.
abbrev pub SecretOf : WebhookConfig → Provider → Text → Type 0
SecretOf cfg p secret =
    ((p.webhook_secret ≢ []) × (secret ≡ p.webhook_secret))
    ⊎ ((p.webhook_secret ≡ []) × (cfg.production ≡ false) × (secret ≡ cfg.demo_secret))

secret_of-SecretOf :
    (cfg : WebhookConfig) (p : Provider) (secret : Text)
    → secret_of cfg p ≡ ok secret
    → SecretOf cfg p secret
secret_of-SecretOf cfg p secret h = chosen p.webhook_secret refl h
  where
    chosen :
        (own : Text)
        → p.webhook_secret ≡ own
        → (if not (is_empty own)
            then ok own
            else if not cfg.production
            then ok cfg.demo_secret
            else err missing_provider_secret)
          ≡ ok secret
        → SecretOf cfg p secret
    chosen (c ∷ cs) e k = inl (λ none_there. cc, cc)
    chosen [] e k = elim (Bool-cases cfg.production) [
      | inl production ↦ cc (rw production at k)
      | inr demo ↦ inr (e, demo, cc (rw demo at k))
    ]

-- Rows stay as they were, or one is added.
abbrev pub AtMostOne : {A : Type 0} → List A → List A → (A → Type 0) → Type 0
AtMostOne {A} old new P = (new ≡ old) ⊎ ((x : A) × (new ≡ x ∷ old) × P x)

abbrev pub OwnEvent : Webhook → ℕ → WebhookEvent → Type 0
OwnEvent w tenant e =
    (e.provider_id ≡ w.provider_id) × (e.tenant_id ≡ tenant) × (e.external_id ≡ w.event_id)

abbrev pub OwnJob : Webhook → ℕ → SettlementJob → Type 0
OwnJob w tenant j =
    (j.provider_id ≡ w.provider_id) × (j.tenant_id ≡ tenant) × (j.event_id ≡ w.event_id)

enqueued-own :
    (connected : Bool) (w : Webhook) (tenant : ℕ) (db : WebhookDb) (k : EventKind)
    → w.kind ≡ k
    → AtMostOne db.jobs (enqueue_settlement connected w tenant db).1.jobs (OwnJob w tenant)
      × ((enqueue_settlement connected w tenant db).1.events ≡ db.events)
unfolding enqueue_settlement
enqueued-own connected w tenant db other_kind e = rw e (inl refl, refl)
enqueued-own connected w tenant db settlement e = elim (Bool-cases connected) [
  | inl c ↦ rw (e, c) (inr (_, refl, (refl, refl, refl)), refl)
  | inr c ↦ rw (e, c) (inl refl, refl)
]

recorded-own :
    (connected : Bool) (w : Webhook) (tenant : ℕ) (db : WebhookDb)
    → AtMostOne db.events (record_event connected w tenant db).1.events (OwnEvent w tenant)
      × AtMostOne db.jobs (record_event connected w tenant db).1.jobs (OwnJob w tenant)
unfolding record_event
recorded-own connected w tenant db =
    elim (Bool-cases (any (same_event w.provider_id tenant w.event_id) db.events)) [
      | inl seen ↦ rw seen (inl refl, inl refl)
      | inr fresh ↦
          let e : WebhookEvent = record {
            provider_id = w.provider_id;
            tenant_id = tenant;
            external_id = w.event_id;
          } in
          let done =
            enqueued-own connected w tenant (record db { events = e ∷ db.events }) w.kind refl in
          rw fresh (inr (e, done.1, (refl, refl, refl)), done.0)
    ]

-- A webhook that is taken, as new or as a duplicate, names a provider of the table and brings the
-- bytes of the HMAC of its body under that provider's secret; it adds at most one event and one
-- job, its own, of that provider's tenant.
pub process_webhook-Signed :
    (cfg : WebhookConfig) (connected : Bool) (w : Webhook) (db : WebhookDb) (r : Receipt)
    → (process_webhook cfg connected w db).0 ≡ ok r
    → (p : Provider) × (secret : Text) × In p db.providers
      × (p.id ≡ w.provider_id)
      × SecretOf cfg p secret
      × (hex_bytes w.signature ≡ hex_bytes (cfg.hmac secret w.raw_body))
      × AtMostOne db.events (process_webhook cfg connected w db).1.events (OwnEvent w p.tenant_id)
      × AtMostOne db.jobs (process_webhook cfg connected w db).1.jobs (OwnJob w p.tenant_id)
unfolding verify_signature resolve_provider
process_webhook-Signed cfg connected w db r h =
    let (p, (secret, found, own, valid), way) = taken-Signed cfg connected w db r h in
    let added = recorded-own connected w p.tenant_id db in
    let named = λ (q : Provider). text_eq q.id w.provider_id in
    (
      p,
      secret,
      find-In named db.providers found,
      text_eq_sound p.id w.provider_id (find-passes named db.providers found),
      secret_of-SecretOf cfg p secret own,
      text_eq_sound _ _ valid,
      rw way added.0,
      rw way added.1,
    )

-- The way of a signed webhook.
Signed-way :
    (cfg : WebhookConfig) (connected : Bool) (w : Webhook) (db : WebhookDb) (p : Provider)
    → is_empty w.event_id ≡ false
    → Signed cfg w db.providers p
    → process_webhook cfg connected w db ≡ record_event connected w p.tenant_id db
unfolding process_webhook provider_event signed_event
Signed-way cfg connected w db p given (secret, found, s, valid) = rw (given, found, s, valid) refl

abbrev new_event : Webhook → ℕ → WebhookDb → WebhookDb
new_event w tenant db = record db {
  events =
      record { provider_id = w.provider_id; tenant_id = tenant; external_id = w.event_id }
      ∷ db.events;
}

enqueue-events :
    (connected : Bool) (w : Webhook) (tenant : ℕ) (db : WebhookDb) (k : EventKind)
    → w.kind ≡ k
    → ((enqueue_settlement connected w tenant db).1.events ≡ db.events)
      × ((enqueue_settlement connected w tenant db).1.providers ≡ db.providers)
unfolding enqueue_settlement
enqueue-events connected w tenant db other_kind e = rw e (refl, refl)
enqueue-events connected w tenant db settlement e = elim (Bool-cases connected) [
  | inl c ↦ rw (e, c) (refl, refl)
  | inr c ↦ rw (e, c) (refl, refl)
]

-- After a recording the event is there, and the providers are the same.
recorded :
    (connected : Bool) (w : Webhook) (tenant : ℕ) (db : WebhookDb)
    → (any
          (same_event w.provider_id tenant w.event_id)
          (record_event connected w tenant db).1.events
        ≡ true)
      × ((record_event connected w tenant db).1.providers ≡ db.providers)
unfolding record_event same_event
recorded connected w tenant db =
    elim (Bool-cases (any (same_event w.provider_id tenant w.event_id) db.events)) [
      | inl seen ↦ rw seen (seen, refl)
      | inr fresh ↦
          let kept = enqueue-events connected w tenant (new_event w tenant db) w.kind refl in
          rw fresh (
            rw (kept.0, text_eq_refl w.provider_id, ==_refl tenant, text_eq_refl w.event_id) refl,
            kept.1,
          )
    ]

repeated :
    (connected : Bool) (w : Webhook) (tenant : ℕ) (db : WebhookDb)
    → any (same_event w.provider_id tenant w.event_id) db.events ≡ true
    → record_event connected w tenant db ≡ (ok already_processed, db)
unfolding record_event
repeated connected w tenant db seen = rw seen refl

-- A signed webhook that comes again, whether or not the queue could be reached the first time, is
-- answered as a duplicate and changes nothing; so a settlement whose job could not be enqueued
-- never gets one from a repeated delivery.
pub process_webhook-again :
    (cfg : WebhookConfig) (first second : Bool) (w : Webhook) (db : WebhookDb) (p : Provider)
    → is_empty w.event_id ≡ false
    → Signed cfg w db.providers p
    → process_webhook cfg second w (process_webhook cfg first w db).1
      ≡ (ok already_processed, (process_webhook cfg first w db).1)
process_webhook-again cfg first second w db p given signed =
    let db' = (record_event first w p.tenant_id db).1 in
    let r = recorded first w p.tenant_id db in
    let way = Signed-way cfg first w db p given signed in
    let signed' : Signed cfg w db'.providers p = (
      signed.0,
      subst (λ l. resolve_provider w.provider_id l ≡ some p) (sym r.1) signed.1,
      signed.2,
      signed.3,
    ) in
    let way' = Signed-way cfg second w db' p given signed' in
    rw way (way' ∙ repeated second w p.tenant_id db' r.0)
