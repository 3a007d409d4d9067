-- ===== src/Webhook/Jobs.antt =====
-- How many jobs the webhooks of an event make.
use stablecoin_treasury.Prelude.{
  ℕ, ◌+◌, ◌≤◌, ◌≡◌, refl, subst, inl, inr, Bool, false, not, ◌&&◌, Option, none, some, List, [],
  ◌∷◌, arith, ◌==◌, if◌then◌else◌, ==_iff, Bool-cases, and_left, and_right, any, if-keeps,
}
use stablecoin_treasury.Prelude.Strings.{Text, text_eq, is_empty, text_eq_sound}
use stablecoin_treasury.Prelude.Outcome.{Outcome, ok, err}
use stablecoin_treasury.Webhook.Receive.{
  Provider, EventKind, settlement, other_kind, SettlementJob, WebhookDb, Webhook, WebhookConfig,
  WebhookError, missing_event_id, invalid_signature, Receipt, verify_signature, resolve_provider,
  secret_of, same_event, enqueue_settlement, record_event, signed_event, provider_event,
  process_webhook,
}

-- How many jobs a tenant has for an event of a provider.
abbrev same_job : Text → ℕ → Text → SettlementJob → Bool
unfolding text_eq
same_job provider tenant event j =
    text_eq j.provider_id provider && (j.tenant_id == tenant && text_eq j.event_id event)

unfoldable pub job_count : Text → ℕ → Text → List SettlementJob → ℕ
unfolding same_job
job_count provider tenant event [] = 0
job_count provider tenant event (j ∷ js) =
    (if same_job provider tenant event j then 1 else 0) + job_count provider tenant event js

-- The jobs for an event are at most one, and none before the event is recorded.
abbrev OneJob : Text → ℕ → Text → WebhookDb → Type 0
unfolding job_count same_event
OneJob provider tenant event db =
    job_count provider tenant event db.jobs
    ≤ (if any (same_event provider tenant event) db.events then 1 else 0)

-- Whether a webhook for a tenant is of the event.
abbrev is_of : Text → ℕ → Text → Webhook → ℕ → Bool
unfolding text_eq
is_of provider tenant event w t =
    text_eq w.provider_id provider && (t == tenant && text_eq w.event_id event)

module _ (provider : Text) (tenant : ℕ) (event : Text) where
  -- With room for one more job, whatever the queue does.
  enqueue-OneJob :
      (connected : Bool) (w : Webhook) (t : ℕ) (db : WebhookDb) (k : EventKind)
      → w.kind ≡ k
      → job_count provider tenant event db.jobs + (if is_of provider tenant event w t then 1 else 0)
        ≤ (if any (same_event provider tenant event) db.events then 1 else 0)
      → OneJob provider tenant event (enqueue_settlement connected w t db).1
  unfolding enqueue_settlement job_count same_job is_of OneJob
  enqueue-OneJob connected w t db other_kind e h = rw e (omega (arith, h))
  enqueue-OneJob connected w t db settlement e h = elim (Bool-cases connected) [
    | inl c ↦ rw (e, c) (omega (arith, h))
    | inr c ↦ rw (e, c) (omega (arith, h))
  ]

  -- An event that is new has room.
  new-room :
      (w : Webhook) (t : ℕ) (db : WebhookDb)
      → any (same_event w.provider_id t w.event_id) db.events ≡ false
      → OneJob provider tenant event db
      → job_count provider tenant event db.jobs + (if is_of provider tenant event w t then 1 else 0)
        ≤ (if any (same_event provider tenant event) (
              record { provider_id = w.provider_id; tenant_id = t; external_id = w.event_id }
              ∷ db.events)
            then 1
            else 0)
  unfolding is_of OneJob same_event
  new-room w t db fresh h = elim (Bool-cases (is_of provider tenant event w t)) [
    | inr other ↦ rw other (omega (arith, h))
    | inl own ↦
        let more = text_eq w.event_id event in
        let p =
          text_eq_sound w.provider_id provider
            (and_left (text_eq w.provider_id provider) (t == tenant && more) own) in
        let rest = and_right (text_eq w.provider_id provider) (t == tenant && more) own in
        let q = (==_iff t tenant).0 (and_left (t == tenant) more rest) in
        let e = text_eq_sound w.event_id event (and_right (t == tenant) more rest) in
        let none_yet : any (same_event provider tenant event) db.events ≡ false =
          subst (λ x. any (same_event x tenant event) db.events ≡ false) p
            (subst (λ x. any (same_event w.provider_id x event) db.events ≡ false) q
              (subst (λ x. any (same_event w.provider_id t x) db.events ≡ false) e fresh)) in
        let zero_jobs = rw none_yet at h in rw own (omega (arith, zero_jobs))
  ]

  record_event-OneJob :
      (connected : Bool) (w : Webhook) (t : ℕ) (db : WebhookDb)
      → OneJob provider tenant event db
      → OneJob provider tenant event (record_event connected w t db).1
  unfolding record_event
  record_event-OneJob connected w t db h =
      elim (Bool-cases (any (same_event w.provider_id t w.event_id) db.events)) [
        | inl seen ↦ rw seen h
        | inr fresh ↦ rw fresh (
            enqueue-OneJob connected w t
              (record db {
                events =
                    record { provider_id = w.provider_id; tenant_id = t; external_id = w.event_id }
                    ∷ db.events;
              })
              w.kind refl (new-room w t db fresh h))
      ]

  signed_event-OneJob :
      (cfg : WebhookConfig) (connected : Bool) (w : Webhook) (p : Provider) (db : WebhookDb)
      (o : Outcome WebhookError Text)
      → OneJob provider tenant event db
      → OneJob provider tenant event (signed_event cfg connected w p db o).1
  unfolding signed_event
  signed_event-OneJob cfg connected w p db (err e) h = h
  signed_event-OneJob cfg connected w p db (ok secret) h =
      if-keeps (λ (r : Outcome WebhookError Receipt × WebhookDb). OneJob provider tenant event r.1)
        (not (verify_signature cfg w.raw_body secret w.signature)) (err invalid_signature, db)
        (record_event connected w p.tenant_id db) h
        (record_event-OneJob connected w p.tenant_id db h)

  provider_event-OneJob :
      (cfg : WebhookConfig) (connected : Bool) (w : Webhook) (db : WebhookDb) (o : Option Provider)
      → OneJob provider tenant event db
      → OneJob provider tenant event (provider_event cfg connected w db o).1
  unfolding provider_event
  provider_event-OneJob cfg connected w db none h = h
  provider_event-OneJob cfg connected w db (some p) h =
      signed_event-OneJob cfg connected w p db (secret_of cfg p) h

  webhook-OneJob :
      (cfg : WebhookConfig) (connected : Bool) (w : Webhook) (db : WebhookDb)
      → OneJob provider tenant event db
      → OneJob provider tenant event (process_webhook cfg connected w db).1
  unfolding process_webhook
  webhook-OneJob cfg connected w db h =
      let found = resolve_provider w.provider_id db.providers in
      if-keeps (λ (r : Outcome WebhookError Receipt × WebhookDb). OneJob provider tenant event r.1)
        (is_empty w.event_id) (err missing_event_id, db) (provider_event cfg connected w db found) h
        (provider_event-OneJob cfg connected w db found h)

-- The tables after a list of webhooks, whose newest stands first, each with whether the queue
-- could be reached.
unfoldable pub after_webhooks : WebhookConfig → List (Bool × Webhook) → WebhookDb → WebhookDb
unfolding process_webhook
after_webhooks cfg [] db = db
after_webhooks cfg ((connected, w) ∷ ws) db =
    (process_webhook cfg connected w (after_webhooks cfg ws db)).1

kept :
    (provider : Text) (tenant : ℕ) (event : Text) (cfg : WebhookConfig) (ws : List (Bool × Webhook))
    (db : WebhookDb)
    → OneJob provider tenant event db
    → OneJob provider tenant event (after_webhooks cfg ws db)
unfolding after_webhooks
kept provider tenant event cfg [] db h = h
kept provider tenant event cfg ((connected, w) ∷ ws) db h =
    webhook-OneJob provider tenant event cfg connected w (after_webhooks cfg ws db)
      (kept provider tenant event cfg ws db h)

-- From tables without jobs, whatever webhooks come, however often, a tenant gets at most one job
-- for an event of a provider.
pub one_job_each :
    (cfg : WebhookConfig) (ws : List (Bool × Webhook)) (db : WebhookDb) (provider : Text)
    (tenant : ℕ) (event : Text)
    → db.jobs ≡ []
    → job_count provider tenant event (after_webhooks cfg ws db).jobs ≤ 1
unfolding job_count OneJob
one_job_each cfg ws db provider tenant event no_jobs =
    let start : OneJob provider tenant event db = rw no_jobs (omega arith) in
    let h = kept provider tenant event cfg ws db start in ground arith
