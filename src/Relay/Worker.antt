-- ===== src/Relay/Worker.antt =====
-- The relay worker (services/relay-worker/src/index.mjs): polls of platform.outbox_events. Times
-- are milliseconds.
use stablecoin_treasury.Prelude.{
  ℕ, ◌+◌, ◌-◌, ◌*◌, ◌^◌, min, Bool, true, false, not, ◌&&◌, Option, none, some, List, [], ◌∷◌, ltb,
  leb, if◌then◌else◌, is_some,
}
use stablecoin_treasury.Prelude.Outcome.{Outcome, ok, err}
use stablecoin_treasury.Platform.Events.{EventType}
use stablecoin_treasury.Relay.Inbox.{
  Consumer, event_route, Service, service_of, Inbox, with_inbox_dedup,
}

-- A row of platform.outbox_events as the relay sees it.
pub record OutboxItem : Type 0 where
  pub id : ℕ
  pub event_type : EventType
  pub published_at : Option ℕ
  pub dead_lettered_at : Option ℕ
  pub attempts : ℕ
  pub next_attempt_at : Option ℕ

-- What becomes of a request to a consumer: its reply arrives, its reply is lost, it never reaches
-- the consumer, or the relay's process ends after it.
pub data Fate : Type 0 where
  replied reply_lost lost died : Fate

-- BATCH_SIZE
abbrev pub batch_size : ℕ
batch_size = 20

abbrev pub is_past : ℕ → Option ℕ → Bool
is_past now none = true
is_past now (some t) = leb t now

-- The condition of `getUnpublishedEvents`.
abbrev pub is_due : ℕ → OutboxItem → Bool
is_due now r =
    not (is_some r.published_at)
    && (not (is_some r.dead_lettered_at) && is_past now r.next_attempt_at)

-- `markPublished`
abbrev pub mark_published : ℕ → OutboxItem → OutboxItem
mark_published now r = record r { published_at = some now }

-- LEAST(250 * POWER(2, attempts), 60000)
unfoldable pub retry_delay : ℕ → ℕ
retry_delay attempts = min (250 * 2 ^ attempts) 60000

-- `recordDeliveryAttempt`
unfoldable pub record_delivery_attempt : ℕ → ℕ → OutboxItem → OutboxItem
unfolding retry_delay
record_delivery_attempt max_retries now r =
    if leb max_retries (r.attempts + 1)
    then record r { attempts = r.attempts + 1; dead_lettered_at = some now }
    else record r {
      attempts = r.attempts + 1;
      next_attempt_at = some (now + retry_delay (r.attempts + 1));
    }

-- The log of the events that consumers have handled, and whether a consumer's handler goes
-- through, which may depend on all that it has handled.
abbrev pub Log : Type 0
Log = List (ℕ × Service)

abbrev pub Accepts : Type 0
Accepts = ℕ × Service → Log → Bool

-- The handler of a consumer.
abbrev pub handle : Accepts → ℕ × Service → Log → Outcome (Unit {0}) ((Unit {0}) × Log)
handle accepts event log = if accepts event log then ok (tt, event ∷ log) else err tt

abbrev pub succeeded {ℓ κ} : {E : Type ℓ} {A : Type κ} → Outcome E A → Bool
succeeded (ok a) = true
succeeded (err e) = false

-- `servicePost` of an event: whether the relay sees a reply that is no error, and the consumer.
unfoldable pub post_event : Accepts → Fate → ℕ → Consumer → Inbox Log → Bool × Inbox Log
unfolding with_inbox_dedup
post_event accepts lost id consumer inbox = (false, inbox)
post_event accepts replied id consumer inbox =
    let service = service_of consumer in
    let r = with_inbox_dedup (some id) service (handle accepts (id, service)) inbox in
    (succeeded r.0, r.1)
post_event accepts reply_lost id consumer inbox =
    let service = service_of consumer in
    (false, (with_inbox_dedup (some id) service (handle accepts (id, service)) inbox).1)
post_event accepts died id consumer inbox =
    let service = service_of consumer in
    (false, (with_inbox_dedup (some id) service (handle accepts (id, service)) inbox).1)

abbrev pub is_death : Fate → Bool
is_death died = true
is_death _ = false

-- A request for which the process ended leaves the row as it was.
unfoldable pub after_post : ℕ → ℕ → Fate → OutboxItem → Bool × Inbox Log → OutboxItem × Inbox Log
unfolding record_delivery_attempt
after_post max_retries now fate r (accepted, inbox) =
    if is_death fate
    then (r, inbox)
    else if accepted
    then (mark_published now r, inbox)
    else (record_delivery_attempt max_retries now r, inbox)

-- The body of the loop of `pollAndDispatch`. An UPDATE of `markPublished` that fails counts as a
-- failed attempt, as `reply_lost` does.
unfoldable pub dispatch :
    Accepts → ℕ → ℕ → Fate → OutboxItem → Option Consumer → Inbox Log → OutboxItem × Inbox Log
unfolding post_event after_post
dispatch accepts max_retries now fate r none inbox = (mark_published now r, inbox)
dispatch accepts max_retries now fate r (some consumer) inbox =
    after_post max_retries now fate r (post_event accepts fate r.id consumer inbox)

-- The room that is left in a batch after a row; a death ends the poll.
abbrev pub room_left : Fate → Option Consumer → ℕ → ℕ
room_left fate none room = room - 1
room_left fate (some _) room = if is_death fate then 0 else room - 1

-- `pollAndDispatch`: the rows, in the order of their creation, of which the first due ones are
-- dispatched. Each dispatch changes its own row only, so selecting the batch first, as the code
-- does, is the same.
unfoldable pub poll_rows :
    Accepts → ℕ → ℕ → (ℕ → Fate) → ℕ → List OutboxItem → Inbox Log → List OutboxItem × Inbox Log
unfolding dispatch
poll_rows accepts max_retries now fates room [] inbox = ([], inbox)
poll_rows accepts max_retries now fates room (r ∷ rs) inbox =
    let route = event_route r.event_type in
    let sent = dispatch accepts max_retries now (fates r.id) r route inbox in
    let after_it =
      poll_rows accepts max_retries now fates (room_left (fates r.id) route room) rs sent.1 in
    let passed_over = poll_rows accepts max_retries now fates room rs inbox in
    if is_due now r && ltb 0 room
    then (sent.0 ∷ after_it.0, after_it.1)
    else (r ∷ passed_over.0, passed_over.1)

unfoldable pub poll_and_dispatch :
    Accepts → ℕ → ℕ → (ℕ → Fate) → List OutboxItem × Inbox Log → List OutboxItem × Inbox Log
unfolding poll_rows
poll_and_dispatch accepts max_retries now fates (rows, inbox) =
    poll_rows accepts max_retries now fates batch_size rows inbox
