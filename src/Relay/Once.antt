-- ===== src/Relay/Once.antt =====
-- Repeated delivery has the effect of one: what consumers have handled after any polls.
use stablecoin_treasury.Prelude.{
  ℕ, ◌≡◌, refl, subst, inl, inr, Bool, Option, none, some, [], ◌∷◌, Bool-cases, List, All, ◌+◌, sym,
  ◌∙◌, ◌&&◌, ltb, leb, if◌then◌else◌, All-map, if-keeps,
}
use stablecoin_treasury.Relay.Inbox.{Consumer, event_route, service_of, Inbox}
use stablecoin_treasury.Relay.Worker.{
  OutboxItem, Log, Accepts, Fate, record_delivery_attempt, post_event, after_post, dispatch, is_due,
  mark_published, retry_delay, is_death, room_left, poll_rows, batch_size, poll_and_dispatch,
}
use stablecoin_treasury.Relay.Handled.{
  HandledOnce, Claimed, Grown, PublishedHandled, published_more, Posted, posted,
}

-- What a poll keeps of its rows and of the consumers.
abbrev pub Delivered : List OutboxItem × Inbox Log → Type 0
Delivered w = Claimed w.1 × All (PublishedHandled w.1.state) w.0

-- A row that was published before stays so; one that is published now was handled.
attempted :
    (max_retries now : ℕ) (r : OutboxItem) (log : Log)
    → PublishedHandled log r
    → PublishedHandled log (record_delivery_attempt max_retries now r)
unfolding record_delivery_attempt
attempted max_retries now r log h =
    if-keeps (PublishedHandled log) (leb max_retries (r.attempts + 1))
      (record r { attempts = r.attempts + 1; dead_lettered_at = some now })
      (record r {
        attempts = r.attempts + 1;
        next_attempt_at = some (now + retry_delay (r.attempts + 1));
      })
      h h

marked :
    (max_retries now : ℕ) (fate : Fate) (r : OutboxItem) (consumer : Consumer)
    (inbox inbox' : Inbox Log) (accepted : Bool)
    → event_route r.event_type ≡ some consumer
    → PublishedHandled inbox.state r
    → Posted (r.id, service_of consumer) inbox accepted inbox'
    → PublishedHandled inbox'.state (after_post max_retries now fate r (accepted, inbox')).0
unfolding after_post
marked max_retries now fate r consumer inbox inbox' accepted route h p =
    let kept =
      published_more inbox.state inbox'.state r.id r.published_at (event_route r.event_type) p.1
        h in
    elim (Bool-cases (is_death fate)) [
      | inl dead ↦ rw dead kept
      | inr alive ↦ elim (Bool-cases accepted) [
        | inr refused ↦ rw (alive, refused) (attempted max_retries now r inbox'.state kept)
        | inl taken ↦ elim p.2 [
          | inl not_taken ↦ cc (sym taken ∙ not_taken)
          | inr handled ↦ rw (alive, taken, route) handled
        ]
      ]
    ]

post_inbox :
    (max_retries now : ℕ) (fate : Fate) (r : OutboxItem) (sent : Bool × Inbox Log)
    → (after_post max_retries now fate r sent).1 ≡ sent.1
unfolding after_post
post_inbox max_retries now fate r (accepted, inbox) =
    if-keeps (λ (w : OutboxItem × Inbox Log). w.1 ≡ inbox) (is_death fate) (r, inbox)
      (if accepted
        then (mark_published now r, inbox)
        else (record_delivery_attempt max_retries now r, inbox))
      refl
      (if-keeps (λ (w : OutboxItem × Inbox Log). w.1 ≡ inbox) accepted (mark_published now r, inbox)
        (record_delivery_attempt max_retries now r, inbox) refl refl)

dispatched :
    (accepts : Accepts) (max_retries now : ℕ) (fate : Fate) (r : OutboxItem) (inbox : Inbox Log)
    (route : Option Consumer)
    → event_route r.event_type ≡ route
    → Claimed inbox
    → PublishedHandled inbox.state r
    → Claimed (dispatch accepts max_retries now fate r route inbox).1
      × Grown inbox.state (dispatch accepts max_retries now fate r route inbox).1.state
      × PublishedHandled
          (dispatch accepts max_retries now fate r route inbox).1.state
          (dispatch accepts max_retries now fate r route inbox).0
unfolding dispatch
dispatched accepts max_retries now fate r inbox none route h p = (h, (λ e k. k), rw route tt)
dispatched accepts max_retries now fate r inbox (some consumer) route h p =
    let sent = post_event accepts fate r.id consumer inbox in
    let q = posted accepts fate r.id consumer inbox h in
    let same = post_inbox max_retries now fate r sent in
    (
      subst (λ i. Claimed i) (sym same) q.0,
      subst (λ (i : Inbox Log). Grown inbox.state i.state) (sym same) q.1,
      subst (λ (i : Inbox Log). PublishedHandled i.state (after_post max_retries now fate r sent).0)
          (sym same) (marked max_retries now fate r consumer inbox sent.1 sent.0 route p q),
    )

published_rows :
    (log log' : Log) (rows : List OutboxItem)
    → Grown log log'
    → All (PublishedHandled log) rows
    → All (PublishedHandled log') rows
published_rows log log' rows g h =
    All-map (PublishedHandled log) (PublishedHandled log')
      (λ r k. published_more log log' r.id r.published_at (event_route r.event_type) g k) rows h

polled :
    (accepts : Accepts) (max_retries now : ℕ) (fates : ℕ → Fate) (room : ℕ) (rows : List OutboxItem)
    (inbox : Inbox Log)
    → Delivered (rows, inbox)
    → Delivered (poll_rows accepts max_retries now fates room rows inbox)
      × Grown inbox.state (poll_rows accepts max_retries now fates room rows inbox).1.state
unfolding poll_rows
polled accepts max_retries now fates room [] inbox h = (h, (λ e k. k))
polled accepts max_retries now fates room (r ∷ rs) inbox h =
    let fate = fates r.id in
    let route = event_route r.event_type in
    let sent = dispatch accepts max_retries now fate r route inbox in
    let d = dispatched accepts max_retries now fate r inbox route refl h.0 h.1.0 in
    let more =
      polled accepts max_retries now fates (room_left fate route room) rs sent.1
        (d.0, published_rows inbox.state sent.1.state rs d.1 h.1.1) in
    let over = polled accepts max_retries now fates room rs inbox (h.0, h.1.1) in
    let after_it = poll_rows accepts max_retries now fates (room_left fate route room) rs sent.1 in
    let passed_over = poll_rows accepts max_retries now fates room rs inbox in
    if-keeps (λ (w : List OutboxItem × Inbox Log). Delivered w × Grown inbox.state w.1.state)
      (is_due now r && ltb 0 room) (sent.0 ∷ after_it.0, after_it.1)
      (r ∷ passed_over.0, passed_over.1)
      (
        (
          more.0.0,
          (
            published_more sent.1.state after_it.1.state sent.0.id sent.0.published_at
                (event_route sent.0.event_type) more.1 d.2,
            more.0.1,
          ),
        ),
        (λ e k. more.1 e (d.1 e k)),
      )
      (
        (
          over.0.0,
          (
            published_more inbox.state passed_over.1.state r.id r.published_at
                (event_route r.event_type) over.1 h.1.0,
            over.0.1,
          ),
        ),
        over.1,
      )

-- The rows before any poll: none is published.
abbrev Unpublished : OutboxItem → Type 0
Unpublished r = r.published_at ≡ none

-- A poll, with its time, what consumers accept, and what becomes of its requests.
pub record Poll : Type 0 where
  pub now : ℕ
  pub accepts : Accepts
  pub fates : ℕ → Fate

-- The newest poll stands first.
unfoldable pub after_polls : ℕ → List Poll → List OutboxItem → List OutboxItem × Inbox Log
unfolding poll_and_dispatch
after_polls max_retries [] rows = (rows, record { claims = []; state = [] })
after_polls max_retries (p ∷ ps) rows =
    poll_and_dispatch p.accepts max_retries p.now p.fates (after_polls max_retries ps rows)

unpublished_row : (r : OutboxItem) → Unpublished r → PublishedHandled [] r
unpublished_row r h = rw h tt

Delivered-after :
    (max_retries : ℕ) (polls : List Poll) (rows : List OutboxItem)
    → All Unpublished rows
    → Delivered (after_polls max_retries polls rows)
unfolding after_polls HandledOnce poll_and_dispatch Claimed
Delivered-after max_retries [] rows h =
    ((refl, tt), All-map Unpublished (PublishedHandled []) unpublished_row rows h)
Delivered-after max_retries (p ∷ ps) rows h =
    let before_it = after_polls max_retries ps rows in
    (polled p.accepts max_retries p.now p.fates batch_size before_it.0 before_it.1
      (Delivered-after max_retries ps rows h)).0

-- After any sequence of polls, in which requests and replies are lost, consumers refuse and the
-- relay's process ends as they may, no event was handled twice, and every row that is published
-- and has a route was handled.
pub handled_exactly_once :
    (max_retries : ℕ) (polls : List Poll) (rows : List OutboxItem)
    → All Unpublished rows
    → HandledOnce (after_polls max_retries polls rows).1.state
      × All
          (PublishedHandled (after_polls max_retries polls rows).1.state)
          (after_polls max_retries polls rows).0
unfolding Claimed
handled_exactly_once max_retries polls rows h =
    let d = Delivered-after max_retries polls rows h in (d.0.1, d.1)
