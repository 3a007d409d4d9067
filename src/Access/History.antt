-- ===== src/Access/History.antt =====
-- Histories of sessions: logins, logouts and uses.
use stablecoin_treasury.Prelude.{
  ℕ, ◌+◌, ◌≤◌, ◌≡◌, ◌⊎◌, Bool, true, false, ◌&&◌, Option, none, some, List, [], ◌∷◌, ◌==◌, any,
}
use stablecoin_treasury.Prelude.Strings.{Text, text_eq}
use stablecoin_treasury.Access.Sessions.{
  Session, Identity, Ttl, absolute_ms, idle_ms, create_session, destroy_session, validate_session,
}

-- A session is created for a user, a tenant and two tokens, is destroyed, or is used.
pub data SessionEvent : Type 0 where
  opened : ℕ → ℕ → Text → Text → ℕ → SessionEvent
  closed : Text → SessionEvent
  used : Text → ℕ → SessionEvent

abbrev pub created_rows : Option (Session × List Session) → List Session → List Session
created_rows none sessions = sessions
created_rows (some (s, rows)) sessions = rows

unfoldable pub apply_event : Ttl → Identity → SessionEvent → List Session → List Session
unfolding create_session destroy_session validate_session
apply_event ttl db (opened user tenant token csrf now) sessions =
    created_rows (create_session ttl user tenant token csrf now sessions) sessions
apply_event ttl db (closed token) sessions = destroy_session token sessions
apply_event ttl db (used token now) sessions = (validate_session ttl db now token sessions).1

-- The sessions after a history, whose newest event stands first.
unfoldable pub sessions_after : Ttl → Identity → List SessionEvent → List Session
unfolding apply_event
sessions_after ttl db [] = []
sessions_after ttl db (e ∷ es) = apply_event ttl db e (sessions_after ttl db es)

-- The event opens a session with the token at the time; it opens or uses one.
unfoldable pub opens_at : Text → ℕ → SessionEvent → Bool
unfolding text_eq
opens_at token t (opened _ _ given _ now) = text_eq given token && now == t
opens_at token t (closed _) = false
opens_at token t (used _ _) = false

unfoldable pub touches_at : Text → ℕ → SessionEvent → Bool
unfolding text_eq
touches_at token t (opened _ _ given _ now) = text_eq given token && now == t
touches_at token t (closed _) = false
touches_at token t (used given now) = text_eq given token && now == t

abbrev pub OpenedAt : Text → List SessionEvent → ℕ → Type 0
OpenedAt token es t = any (opens_at token t) es ≡ true

abbrev pub TouchedAt : Text → List SessionEvent → ℕ → Type 0
TouchedAt token es t = any (touches_at token t) es ≡ true

-- A time is in the lifetime that a history gives to a token: after it was opened at most the
-- absolute limit, and, unless the idle timeout is off, at most the idle limit after some use.
abbrev pub Lasts : Ttl → List SessionEvent → Text → ℕ → Type 0
Lasts ttl es token end =
    ((t : ℕ) × OpenedAt token es t × (end ≤ t + absolute_ms ttl))
    × ((ttl.idle_minutes ≡ 0) ⊎ ((t : ℕ) × TouchedAt token es t × (end ≤ t + idle_ms ttl)))
