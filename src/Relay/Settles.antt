-- ===== src/Relay/Settles.antt =====
-- Undisturbed polls finish every event.
use stablecoin_treasury.Prelude.{
  ℕ, suc, ◌+◌, ◌-◌, ◌≤◌, ◌≡◌, refl, sym, subst, ◌∙◌, inl, inr, true, false, Option, none, some,
  List, [], ◌∷◌, arith, ltb, Bool-cases, is_some, length, All, All-map, ◌<◌, or_true,
}
use stablecoin_treasury.Relay.Inbox.{Consumer, event_route, Inbox}
use stablecoin_treasury.Relay.Worker.{
  OutboxItem, Fate, batch_size, is_due, Log, Accepts, is_death, dispatch, room_left, poll_rows,
  poll_and_dispatch,
}
use stablecoin_treasury.Relay.Once.{Poll, after_polls}
use stablecoin_treasury.Relay.Progress.{
  IsSettled, InLimit, Progress, undue-IsSettled, dispatch-Progress, IsFresh, attempts-InLimit,
}

-- The process lives through a poll.
abbrev pub Undying : (ℕ → Fate) → Type 0
Undying fates = (id : ℕ) → is_death (fates id) ≡ false

-- What is known of the rows that are left of a poll.
abbrev Tried : ℕ → ℕ → List OutboxItem → Type 0
Tried tries ready rows = All (Progress tries ready) rows

room_alive :
    (fate : Fate) (route : Option Consumer) (room : ℕ)
    → is_death fate ≡ false
    → room_left fate route room ≡ room - 1
room_alive fate none room h = refl
room_alive fate (some c) room h = rw h refl

-- The tries of a row that is due.
tries_due :
    (tries ready now : ℕ) (r : OutboxItem)
    → Progress tries ready r
    → is_due now r ≡ true
    → tries ≤ r.attempts
tries_due tries ready now r (inl settled) due = ground arith
tries_due tries ready now r (inr (tried, past)) due = tried

poll_rows-Progress :
    (accepts : Accepts) (max_retries now : ℕ) (fates : ℕ → Fate) (tries ready room : ℕ)
    (rows : List OutboxItem) (inbox : Inbox Log)
    → Undying fates
    → ready ≤ now
    → length rows ≤ room
    → Tried tries ready rows
    → Tried (suc tries) (now + 60000) (poll_rows accepts max_retries now fates room rows inbox).0
      × (length (poll_rows accepts max_retries now fates room rows inbox).0 ≡ length rows)
unfolding poll_rows
poll_rows-Progress accepts max_retries now fates tries ready room [] inbox alive le fits h =
    (tt, refl)
poll_rows-Progress accepts max_retries now fates tries ready room (r ∷ rs) inbox alive le fits h =
    let route = event_route r.event_type in
    let sent = dispatch accepts max_retries now (fates r.id) r route inbox in
    let fits' : length rs ≤ room - 1 = omega (arith, fits) in
    let more =
      poll_rows-Progress accepts max_retries now fates tries ready
        (room_left (fates r.id) route room) rs sent.1 alive le
        (subst (λ n. length rs ≤ n) (sym (room_alive (fates r.id) route room (alive r.id))) fits')
        h.1 in
    let over =
      poll_rows-Progress accepts max_retries now fates tries ready room rs inbox alive le
        (omega (arith, fits)) h.1 in
    elim (Bool-cases (is_due now r)) [
      | inl due ↦
          let some_room : ltb 0 room ≡ true = ground arith in
          rw (due, some_room)
            (
              (
                dispatch-Progress accepts max_retries now tries (fates r.id) r route inbox
                    (alive r.id) (tries_due tries ready now r h.0 due),
                more.0,
              ),
              omega (arith, more.1),
            )
      | inr passed ↦
          rw passed
            ((inl (undue-IsSettled tries ready now r le h.0 passed), over.0), omega (arith, over.1))
    ]

-- The time from which a poll finds every row due that waits, after the polls before it.
abbrev pub ready_after : List Poll → ℕ
ready_after [] = 0
ready_after (p ∷ ps) = p.now + 60000

-- Each poll comes at least the longest delay after the one before, and none ends the process.
abbrev pub Undisturbed : List Poll → Type 0
Undisturbed [] = Unit
Undisturbed (p ∷ ps) = (ready_after ps ≤ p.now) × Undying p.fates × Undisturbed ps

fresh-Progress : (r : OutboxItem) → IsFresh r → Progress 0 0 r
fresh-Progress r h = inr (omega arith, rw h.3 refl)

progress_after :
    (max_retries : ℕ) (polls : List Poll) (rows : List OutboxItem)
    → All IsFresh rows
    → length rows ≤ batch_size
    → Undisturbed polls
    → Tried (length polls) (ready_after polls) (after_polls max_retries polls rows).0
      × (length (after_polls max_retries polls rows).0 ≡ length rows)
unfolding after_polls poll_and_dispatch
progress_after max_retries [] rows fresh fits h =
    (All-map IsFresh (Progress 0 0) fresh-Progress rows fresh, refl)
progress_after max_retries (p ∷ ps) rows fresh fits h =
    let before_it = after_polls max_retries ps rows in
    let q = progress_after max_retries ps rows fresh fits h.2 in
    let r =
      poll_rows-Progress p.accepts max_retries p.now p.fates (length ps) (ready_after ps) batch_size
        before_it.0 before_it.1 h.1 h.0 (omega (arith, q.1, fits)) q.0 in
    (r.0, r.1 ∙ q.1)

finished :
    (max_retries tries ready : ℕ) (r : OutboxItem)
    → max_retries ≤ tries
    → InLimit max_retries r
    → Progress tries ready r
    → IsSettled r
finished max_retries tries ready r le limit (inl settled) = settled
finished max_retries tries ready r le (most, inl dead) (inr h) =
    rw dead (or_true (is_some r.published_at))
finished max_retries tries ready r le (most, inr less) (inr h) = let tried = h.0 in ground arith

All-both {ℓ} :
    {A : Type ℓ} (P Q R : A → Type 0) (f : (a : A) → P a → Q a → R a) (xs : List A)
    → All P xs
    → All Q xs
    → All R xs
All-both P Q R f [] hp hq = tt
All-both P Q R f (x ∷ xs) hp hq = (f x hp.0 hq.0, All-both P Q R f xs hp.1 hq.1)

-- With a positive limit and at most a batch of events, as many polls as the limit, in which the
-- process lives and each of which comes at least the longest delay after the one before, leave
-- every event published or dead-lettered, whatever becomes of the requests.
pub events_settle :
    (max_retries : ℕ) (polls : List Poll) (rows : List OutboxItem)
    → 0 < max_retries
    → All IsFresh rows
    → length rows ≤ batch_size
    → Undisturbed polls
    → max_retries ≤ length polls
    → All IsSettled (after_polls max_retries polls rows).0
events_settle max_retries polls rows positive fresh fits h enough =
    let done = (after_polls max_retries polls rows).0 in
    All-both (InLimit max_retries) (Progress (length polls) (ready_after polls)) IsSettled
      (λ r limit tried.
        finished max_retries (length polls) (ready_after polls) r enough limit tried)
      done (attempts-InLimit max_retries polls rows positive fresh)
      (progress_after max_retries polls rows fresh fits h).0
