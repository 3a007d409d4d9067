-- ===== src/Tests/Webhooks.antt =====
-- Concrete webhooks.
use stablecoin_treasury.Prelude.{◌≡◌, refl, true, false, [], ◌∷◌, ◌≤◌, In}
use stablecoin_treasury.Prelude.Strings.{text_eq, Text}
use stablecoin_treasury.Prelude.Outcome.{ok}
use stablecoin_treasury.Http.Routing.{hex_bytes}
use stablecoin_treasury.Webhook.Receive.{
  Provider, settlement, WebhookDb, Webhook, WebhookConfig, already_processed, processed,
  verify_signature, resolve_provider, same_event, enqueue_settlement, record_event, signed_event,
  provider_event, process_webhook,
}
use stablecoin_treasury.Webhook.Laws.{
  process_webhook-Signed, process_webhook-again, SecretOf, AtMostOne, OwnEvent, OwnJob,
}
use stablecoin_treasury.Webhook.Jobs.{job_count, after_webhooks, one_job_each}

abbrev word_c : Text
word_c = b'c' ∷ []

abbrev provider : Provider
provider = record { id = word_c; tenant_id = 3; webhook_secret = word_c }

abbrev webhook_config : WebhookConfig
webhook_config = record { production = true; demo_secret = []; hmac = λ secret t. t }

abbrev webhook : Webhook
webhook = record {
  provider_id = word_c;
  event_id = word_c;
  kind = settlement;
  raw_body = b'a' ∷ b'b' ∷ [];
  signature = b'a' ∷ b'b' ∷ [];
}

abbrev webhook_db : WebhookDb
webhook_db = record { providers = provider ∷ []; events = []; jobs = [] }

process_webhook-Signed_example :
    let after = (process_webhook webhook_config true webhook webhook_db).1 in
    (p : Provider) × (secret : Text) × In p (provider ∷ [])
    × (p.id ≡ webhook.provider_id)
    × SecretOf webhook_config p secret
    × (hex_bytes webhook.signature ≡ hex_bytes (webhook_config.hmac secret webhook.raw_body))
    × AtMostOne webhook_db.events after.events (OwnEvent webhook p.tenant_id)
    × AtMostOne webhook_db.jobs after.jobs (OwnJob webhook p.tenant_id)
unfolding process_webhook provider_event resolve_provider signed_event verify_signature hex_bytes
    text_eq record_event same_event enqueue_settlement
process_webhook-Signed_example =
    process_webhook-Signed webhook_config true webhook webhook_db processed refl

process_webhook-again_example :
    process_webhook webhook_config true webhook
      (process_webhook webhook_config false webhook webhook_db).1
    ≡ (ok already_processed, (process_webhook webhook_config false webhook webhook_db).1)
unfolding resolve_provider verify_signature hex_bytes text_eq
process_webhook-again_example =
    process_webhook-again webhook_config false true webhook webhook_db provider refl
      (word_c, refl, refl, refl)

one_job_each_example :
    job_count word_c 3 word_c
      (after_webhooks webhook_config ((true, webhook) ∷ (true, webhook) ∷ []) webhook_db).jobs
    ≤ 1
one_job_each_example =
    one_job_each webhook_config ((true, webhook) ∷ (true, webhook) ∷ []) webhook_db word_c 3 word_c
      refl
