-- ===== src/Webhook/Taken.antt =====
-- The way of a webhook that is taken.
use stablecoin_treasury.Prelude.{
  ◌≡◌, refl, inl, inr, Bool, true, Option, none, some, List, Bool-cases,
}
use stablecoin_treasury.Prelude.Strings.{Text, is_empty}
use stablecoin_treasury.Prelude.Outcome.{Outcome, ok, err}
use stablecoin_treasury.Webhook.Receive.{
  Provider, WebhookDb, Webhook, WebhookConfig, WebhookError, Receipt, verify_signature,
  resolve_provider, secret_of, record_event, signed_event, provider_event, process_webhook,
}

-- The webhook is signed with the secret of its provider.
abbrev pub Signed : WebhookConfig → Webhook → List Provider → Provider → Type 0
Signed cfg w providers p =
    (secret : Text) × (resolve_provider w.provider_id providers ≡ some p)
    × (secret_of cfg p ≡ ok secret)
    × (verify_signature cfg w.raw_body secret w.signature ≡ true)

signed-Reached :
    (cfg : WebhookConfig) (connected : Bool) (w : Webhook) (p : Provider) (db : WebhookDb)
    (o : Outcome WebhookError Text) (r : Receipt)
    → secret_of cfg p ≡ o
    → (signed_event cfg connected w p db o).0 ≡ ok r
    → (secret : Text) × (secret_of cfg p ≡ ok secret)
      × (verify_signature cfg w.raw_body secret w.signature ≡ true)
      × (signed_event cfg connected w p db o ≡ record_event connected w p.tenant_id db)
unfolding signed_event
signed-Reached cfg connected w p db (err e) r s h = cc
signed-Reached cfg connected w p db (ok secret) r s h =
    elim (Bool-cases (verify_signature cfg w.raw_body secret w.signature)) [
      | inl valid ↦ (secret, s, valid, rw valid refl)
      | inr forged ↦ cc (rw forged at h)
    ]

provider-Reached :
    (cfg : WebhookConfig) (connected : Bool) (w : Webhook) (db : WebhookDb) (o : Option Provider)
    (r : Receipt)
    → resolve_provider w.provider_id db.providers ≡ o
    → (provider_event cfg connected w db o).0 ≡ ok r
    → (p : Provider) × Signed cfg w db.providers p
      × (provider_event cfg connected w db o ≡ record_event connected w p.tenant_id db)
unfolding provider_event
provider-Reached cfg connected w db none r e h = cc
provider-Reached cfg connected w db (some p) r e h =
    let (secret, s, valid, same) = signed-Reached cfg connected w p db (secret_of cfg p) r refl h in
    (p, (secret, e, s, valid), same)

-- The way of a webhook that is taken.
pub taken-Signed :
    (cfg : WebhookConfig) (connected : Bool) (w : Webhook) (db : WebhookDb) (r : Receipt)
    → (process_webhook cfg connected w db).0 ≡ ok r
    → (p : Provider) × Signed cfg w db.providers p
      × (process_webhook cfg connected w db ≡ record_event connected w p.tenant_id db)
unfolding process_webhook
taken-Signed cfg connected w db r h = elim (Bool-cases (is_empty w.event_id)) [
  | inl missing ↦ cc (rw missing at h)
  | inr given ↦ rw given (
      provider-Reached cfg connected w db (resolve_provider w.provider_id db.providers) r refl
        (rw given at h))
]
