-- ===== src/Relay/Progress.antt =====
-- How long the relay goes on with an event.
use stablecoin_treasury.Prelude.{
  ℕ, suc, ◌+◌, ◌*◌, ◌^◌, ◌≤◌, ◌<◌, ◌≡◌, refl, sym, ◌∙◌, ◌⊎◌, inl, inr, true, false, ◌||◌, Option,
  none, some, arith, leb, Bool-cases, is_some, ◌&&◌, List, [], ◌∷◌, ltb, if◌then◌else◌, min_right,
  All, All-map, if-keeps, and_left, or_true,
}
use stablecoin_treasury.Relay.Worker.{
  OutboxItem, is_past, is_due, retry_delay, record_delivery_attempt, Fate, batch_size,
  mark_published, Log, Accepts, post_event, is_death, after_post, dispatch, room_left, poll_rows,
  poll_and_dispatch,
}
use stablecoin_treasury.Relay.Inbox.{Consumer, event_route, Inbox}
use stablecoin_treasury.Relay.Once.{Poll, after_polls}

-- The relay is done with a row: it is published or dead-lettered.
abbrev pub IsSettled : OutboxItem → Type 0
IsSettled r = (is_some r.published_at || is_some r.dead_lettered_at) ≡ true

-- A row has been tried at most as often as the limit says, and as often only if it is
-- dead-lettered.
abbrev pub InLimit : ℕ → OutboxItem → Type 0
InLimit max_retries r =
    (r.attempts ≤ max_retries) × ((is_some r.dead_lettered_at ≡ true) ⊎ (r.attempts < max_retries))

-- A row that the relay is not done with has been tried a number of times, and is due from a time
-- on.
abbrev pub Progress : ℕ → ℕ → OutboxItem → Type 0
Progress tries ready r =
    IsSettled r ⊎ ((tries ≤ r.attempts) × (is_past ready r.next_attempt_at ≡ true))

past_later : (a b : ℕ) (o : Option ℕ) → a ≤ b → is_past a o ≡ true → is_past b o ≡ true
past_later a b none h e = refl
past_later a b (some t) h e = ground arith

due_unsettled :
    (now : ℕ) (r : OutboxItem) → is_due now r ≡ true → is_some r.dead_lettered_at ≡ false
due_unsettled now r h = ground arith

pub undue-IsSettled :
    (tries ready now : ℕ) (r : OutboxItem)
    → ready ≤ now
    → Progress tries ready r
    → is_due now r ≡ false
    → IsSettled r
undue-IsSettled tries ready now r le (inl settled) undue = settled
undue-IsSettled tries ready now r le (inr (tried, past)) undue =
    let past_now = past_later ready now r.next_attempt_at le past in ground arith

attempt-InLimit :
    (max_retries now : ℕ) (r : OutboxItem)
    → InLimit max_retries r
    → is_some r.dead_lettered_at ≡ false
    → InLimit max_retries (record_delivery_attempt max_retries now r)
unfolding record_delivery_attempt
attempt-InLimit max_retries now r h live = elim h.1 [
  | inl dead ↦ cc (sym dead ∙ live)
  | inr less ↦ elim (Bool-cases (leb max_retries (r.attempts + 1))) [
    | inl over ↦ rw over (omega (arith, less), inl refl)
    | inr again ↦
        let more : r.attempts + 1 < max_retries = ground arith in
        rw again (omega (arith, less), inr more)
  ]
]

retry_delay-most : (n : ℕ) → retry_delay n ≤ 60000
unfolding retry_delay
retry_delay-most n = let delay = 250 * 2 ^ n in min_right delay 60000

leb-true : (a b : ℕ) → a ≤ b → leb a b ≡ true
leb-true a b h = ground arith

attempt-Progress :
    (max_retries now tries : ℕ) (r : OutboxItem)
    → tries ≤ r.attempts
    → Progress (suc tries) (now + 60000) (record_delivery_attempt max_retries now r)
unfolding record_delivery_attempt
attempt-Progress max_retries now tries r h = elim (Bool-cases (leb max_retries (r.attempts + 1))) [
  | inl over ↦ rw over (inl (or_true (is_some r.published_at)))
  | inr again ↦
      let bound = retry_delay-most (r.attempts + 1) in
      rw again (
        inr (
          omega (arith, h),
          leb-true (now + retry_delay (r.attempts + 1)) (now + 60000) (omega (arith, bound)),
        ))
]

-- A row that is dispatched while the process lives.
pub dispatch-Progress :
    (accepts : Accepts) (max_retries now tries : ℕ) (fate : Fate) (r : OutboxItem)
    (route : Option Consumer) (inbox : Inbox Log)
    → is_death fate ≡ false
    → tries ≤ r.attempts
    → Progress (suc tries) (now + 60000) (dispatch accepts max_retries now fate r route inbox).0
unfolding dispatch after_post
dispatch-Progress accepts max_retries now tries fate r none inbox alive h = inl refl
dispatch-Progress accepts max_retries now tries fate r (some consumer) inbox alive h =
    let sent = post_event accepts fate r.id consumer inbox in
    rw alive (
      if-keeps (λ (w : OutboxItem × Inbox Log). Progress (suc tries) (now + 60000) w.0) sent.0
        (mark_published now r, sent.1) (record_delivery_attempt max_retries now r, sent.1)
        (inl refl) (attempt-Progress max_retries now tries r h))

-- Where the number of tries is not known, a row that is dispatched stays in its limit.
dispatch-InLimit :
    (accepts : Accepts) (max_retries now : ℕ) (fate : Fate) (r : OutboxItem)
    (route : Option Consumer) (inbox : Inbox Log)
    → InLimit max_retries r
    → is_some r.dead_lettered_at ≡ false
    → InLimit max_retries (dispatch accepts max_retries now fate r route inbox).0
unfolding dispatch after_post
dispatch-InLimit accepts max_retries now fate r none inbox h live = h
dispatch-InLimit accepts max_retries now fate r (some consumer) inbox h live =
    let sent = post_event accepts fate r.id consumer inbox in
    if-keeps (λ (w : OutboxItem × Inbox Log). InLimit max_retries w.0) (is_death fate) (r, sent.1)
      (if sent.0
        then (mark_published now r, sent.1)
        else (record_delivery_attempt max_retries now r, sent.1))
      h
      (if-keeps (λ (w : OutboxItem × Inbox Log). InLimit max_retries w.0) sent.0
        (mark_published now r, sent.1) (record_delivery_attempt max_retries now r, sent.1) h
        (attempt-InLimit max_retries now r h live))

poll_rows-InLimit :
    (accepts : Accepts) (max_retries now : ℕ) (fates : ℕ → Fate) (room : ℕ) (rows : List OutboxItem)
    (inbox : Inbox Log)
    → All (InLimit max_retries) rows
    → All (InLimit max_retries) (poll_rows accepts max_retries now fates room rows inbox).0
unfolding poll_rows
poll_rows-InLimit accepts max_retries now fates room [] inbox h = tt
poll_rows-InLimit accepts max_retries now fates room (r ∷ rs) inbox h =
    let route = event_route r.event_type in
    let sent = dispatch accepts max_retries now (fates r.id) r route inbox in
    let more =
      poll_rows-InLimit accepts max_retries now fates (room_left (fates r.id) route room) rs sent.1
        h.1 in
    let over = poll_rows-InLimit accepts max_retries now fates room rs inbox h.1 in
    elim (Bool-cases (is_due now r && ltb 0 room)) [
      | inl due ↦ rw due (
        dispatch-InLimit accepts max_retries now (fates r.id) r route inbox h.0
            (due_unsettled now r (and_left (is_due now r) (ltb 0 room) due)),
        more,
      )
      | inr passed ↦ rw passed (h.0, over)
    ]

-- A row as `appendOutboxEvents` inserts it.
abbrev pub IsFresh : OutboxItem → Type 0
IsFresh r =
    (r.published_at ≡ none)
    × (r.dead_lettered_at ≡ none)
    × (r.attempts ≡ 0)
    × (r.next_attempt_at ≡ none)

fresh-InLimit :
    (max_retries : ℕ) → 0 < max_retries → (r : OutboxItem) → IsFresh r → InLimit max_retries r
fresh-InLimit max_retries positive r h = (omega (arith, h.2), inr (omega (arith, h.2, positive)))

-- With a positive limit, no event is tried more often than the limit, whatever happens to the
-- relay and its requests, and one that was tried so often is dead-lettered.
pub attempts-InLimit :
    (max_retries : ℕ) (polls : List Poll) (rows : List OutboxItem)
    → 0 < max_retries
    → All IsFresh rows
    → All (InLimit max_retries) (after_polls max_retries polls rows).0
unfolding after_polls poll_and_dispatch
attempts-InLimit max_retries [] rows positive h =
    All-map IsFresh (InLimit max_retries) (fresh-InLimit max_retries positive) rows h
attempts-InLimit max_retries (p ∷ ps) rows positive h =
    let before_it = after_polls max_retries ps rows in
    poll_rows-InLimit p.accepts max_retries p.now p.fates batch_size before_it.0 before_it.1
      (attempts-InLimit max_retries ps rows positive h)
