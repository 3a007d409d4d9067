-- ===== src/Tests/Delivery.antt =====
-- Concrete deliveries, audit chains, alerts, requests and statements.
use stablecoin_treasury.Prelude.{◌≡◌, refl, ap, true, false, none, some, List, [], ◌∷◌, arith, All}
use stablecoin_treasury.Prelude.Strings.{Text, text_eq}
use stablecoin_treasury.Prelude.Outcome.{ok}
use stablecoin_treasury.Prelude.Int.{pos}
use stablecoin_treasury.Money.Convert.{finite}
use stablecoin_treasury.Platform.Events.{alert_created}
use stablecoin_treasury.Platform.Jobs.{enqueue_job}
use stablecoin_treasury.Relay.Worker.{OutboxItem, replied, reply_lost}
use stablecoin_treasury.Relay.Handled.{HandledOnce, PublishedHandled}
use stablecoin_treasury.Relay.Once.{Poll, after_polls, handled_exactly_once}
use stablecoin_treasury.Relay.Progress.{IsSettled}
use stablecoin_treasury.Relay.Settles.{events_settle}
use stablecoin_treasury.Audit.Chain.{
  AuditEvent, AuditRow, canonical, canonical_hash, insert_row, chain_of, chained_row,
  insert_audit_event, verify_audit_chain,
}
use stablecoin_treasury.Audit.Intact.{insert_audit_events, appended-verified}
use stablecoin_treasury.Audit.Tamper.{verified-unchanged}
use stablecoin_treasury.Watch.Alerts.{dead_letters}
use stablecoin_treasury.Watch.OneOpen.{Evaluation, alerts_after, open_count, over_threshold}
use stablecoin_treasury.Watch.OneAlert.{alerts-follow_checks}
use stablecoin_treasury.Http.Routing.{Runtime, Route, HttpRequest}
use stablecoin_treasury.Http.Serve.{ServiceConfig}
use stablecoin_treasury.Reconciliation.Ingest.{
  StatementBody, IngestDb, ingested, duplicate, ingest_statement, ingest_statement-again,
  check_line, check_lines, lines_of, check_statement, is_statement, insert_statement, inserted,
}

-- An alert event that was just inserted.
abbrev fresh_item : OutboxItem
fresh_item = record {
  id = 5;
  event_type = alert_created;
  published_at = none;
  dead_lettered_at = none;
  attempts = 0;
  next_attempt_at = none;
}

-- A poll whose replies are lost, and one whose replies arrive.
abbrev deaf_poll : Poll
deaf_poll = record { now = 1000; accepts = λ e log. true; fates = λ id. reply_lost }

abbrev heard_poll : Poll
heard_poll = record { now = 70000; accepts = λ e log. true; fates = λ id. replied }

abbrev polls : List Poll
polls = heard_poll ∷ deaf_poll ∷ []

handled_exactly_once_example :
    HandledOnce (after_polls 2 polls (fresh_item ∷ [])).1.state
    × All
        (PublishedHandled (after_polls 2 polls (fresh_item ∷ [])).1.state)
        (after_polls 2 polls (fresh_item ∷ [])).0
handled_exactly_once_example = handled_exactly_once 2 polls (fresh_item ∷ []) (refl, tt)

events_settle_example : All IsSettled (after_polls 2 polls (fresh_item ∷ [])).0
events_settle_example =
    events_settle 2 polls (fresh_item ∷ []) (ground arith) ((refl, refl, refl, refl), tt)
      (ground arith) (ground arith, (λ id. refl), (ground arith, (λ id. refl), tt)) (ground arith)

abbrev pub word_c : Text
word_c = b'c' ∷ []

abbrev audit_event : AuditEvent
audit_event = record {
  id = word_c;
  tenant_id = word_c;
  actor = word_c;
  action = word_c;
  object = word_c;
  detail = word_c;
  at = word_c;
}

-- A hash without collisions.
abbrev marked_text : Text → Text
marked_text t = b'h' ∷ t

abbrev tail : Text → Text
tail [] = []
tail (c ∷ cs) = cs

appended-verified_example :
    verify_audit_chain marked_text
      (word_c ∷ [])
      (insert_audit_events marked_text (audit_event ∷ audit_event ∷ []))
    ≡ none
appended-verified_example =
    appended-verified marked_text (word_c ∷ []) (audit_event ∷ audit_event ∷ [])

abbrev audit_table : List AuditRow
audit_table = insert_audit_events marked_text (audit_event ∷ audit_event ∷ [])

verified-unchanged_example : chain_of word_c audit_table ≡ chain_of word_c audit_table
unfolding insert_audit_events insert_audit_event chained_row canonical_hash canonical chain_of
    insert_row text_eq
verified-unchanged_example =
    verified-unchanged marked_text word_c audit_table audit_table (λ s t e. ap tail e) (λ t. refl)
      (
        ((refl, tt), (refl, tt), (refl, tt), (refl, tt), (refl, tt), (refl, tt), (refl, tt)),
        (((refl, tt), (refl, tt), (refl, tt), (refl, tt), (refl, tt), (refl, tt), (refl, tt)), tt),
      )
      (
        ((refl, tt), (refl, tt), (refl, tt), (refl, tt), (refl, tt), (refl, tt), (refl, tt)),
        (((refl, tt), (refl, tt), (refl, tt), (refl, tt), (refl, tt), (refl, tt), (refl, tt)), tt),
      )
      (appended-verified marked_text (word_c ∷ []) (audit_event ∷ audit_event ∷ []))
      (appended-verified marked_text (word_c ∷ []) (audit_event ∷ audit_event ∷ [])) refl

abbrev evaluations : List Evaluation
evaluations =
    record { tenant_id = word_c; title = dead_letters; threshold = 0; count = 3 }
    ∷ record { tenant_id = word_c; title = dead_letters; threshold = 0; count = 2 }
    ∷ []

alerts-follow_checks_example : open_count word_c dead_letters (alerts_after evaluations) ≡ 1
unfolding over_threshold text_eq
alerts-follow_checks_example = alerts-follow_checks evaluations word_c dead_letters

-- A runtime whose signature is the text.
abbrev runtime : Runtime
runtime = record {
  decode_uri = λ t. some t;
  parse_json = λ t. some 1;
  stringify = λ n. word_c;
  hmac = λ secret t. t;
}

abbrev ping_route : Route
ping_route = record {
  method = b'G' ∷ [];
  pattern = b'/' ∷ b':' ∷ b'i' ∷ [];
  is_public = false;
  handler = 9;
}

abbrev service : ServiceConfig
service = record {
  routes = ping_route ∷ [];
  internal_auth = true;
  auth_required = true;
  secret = word_c;
  tenant_header_required = false;
  default_tenant = word_c;
  body_limit = 100;
  rate_limit = true;
  draining = false;
}

abbrev ping : HttpRequest
ping = record {
  method = b'G' ∷ [];
  path = b'/' ∷ b'7' ∷ [];
  chunks = [];
  tenant_header = [];
  signature = b'G' ∷ b'|' ∷ b'/' ∷ b'7' ∷ b'|' ∷ b'c' ∷ b'|' ∷ b'u' ∷ [];
  acting_user = b'u' ∷ [];
}

abbrev ping_params : List (Text × Text)
ping_params = (b'i' ∷ [], b'7' ∷ []) ∷ []

abbrev statement_body : StatementBody
statement_body = record {
  provider_id = word_c;
  external_id = word_c;
  lines = some (record { provider_ref = word_c; amount = finite (pos 5); asset = word_c } ∷ []);
}

abbrev ingest_db : IngestDb
ingest_db = record {
  providers = (word_c, 1) ∷ [];
  statements = [];
  lines = [];
  jobs = record { rows = []; next_id = 1 };
  next_statement = 4;
}

ingest_statement-again_example :
    ingest_statement statement_body 1 20 (ingest_statement statement_body 1 10 ingest_db).1
    ≡ (ok duplicate, (ingest_statement statement_body 1 10 ingest_db).1)
unfolding ingest_statement check_statement inserted insert_statement is_statement enqueue_job
    check_lines check_line lines_of text_eq
ingest_statement-again_example =
    ingest_statement-again statement_body 1 10 20 ingest_db (ingested 4 1) refl
