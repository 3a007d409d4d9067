-- ===== src/Access/Lifetime.antt =====
-- How long a session lasts: sessions over a history of logins, logouts and uses.
use stablecoin_treasury.Prelude.{
  ℕ, ◌≡◌, Bool, true, false, Option, none, some, List, [], ◌∷◌, ◌==◌, any, refl, inl, inr, arith,
  ltb, Bool-cases, find, All, subst, if◌then◌else◌, suc, ◌<◌, not, ◌++◌, All-append, find-All,
  find-passes, select-All, if-keeps,
}
use stablecoin_treasury.Prelude.Strings.{Text, text_eq, text_eq_sound, is_empty}
use stablecoin_treasury.Access.Sessions.{
  Session, Identity, Ttl, create_session, destroy_session, validate_session, has_token, new_session,
  bumped, UserRow, SessionUser, bump_to, joined, validated,
}
use stablecoin_treasury.Access.History.{
  SessionEvent, opened, closed, used, created_rows, apply_event, sessions_after, OpenedAt,
  TouchedAt, Lasts,
}
use stablecoin_treasury.Access.Lasting.{LastingRow, older_rows, new_row, extended_rows}

-- What a use leads to keeps the rows lasting, step by step.
module _ (ttl : Ttl) (db : Identity) (es : List SessionEvent) (token : Text) (now : ℕ)
    (sessions : List Session) (h : All (LastingRow ttl es) sessions) where
  abbrev Kept : List Session → Type 0
  Kept rows = All (LastingRow ttl (used token now ∷ es)) rows

  untouched : Kept sessions
  untouched = older_rows ttl (used token now) es sessions h

  bump-Kept :
      (s : Session) (o : Option ℕ)
      → find (has_token token) sessions ≡ some s
      → bumped ttl now s ≡ o
      → Kept (bump_to token o sessions)
  bump-Kept s none found e = untouched
  bump-Kept s (some expires) found e = extended_rows ttl es token now expires s sessions h found e

  joined-Kept :
      (s : Session) (o : Option UserRow)
      → find (has_token token) sessions ≡ some s
      → Kept (joined ttl db now token s o sessions).1
  joined-Kept s none found = untouched
  joined-Kept s (some u) found = bump-Kept s (bumped ttl now s) found refl

  validated-Kept :
      (o : Option Session)
      → find (has_token token) sessions ≡ o
      → Kept (validated ttl db now token o sessions).1
  validated-Kept none found = untouched
  validated-Kept (some s) found =
      if-keeps (λ r. Kept r.1) (ltb now s.expires_at)
        (joined ttl db now token s (find (λ u. u.id == s.user_id) db.users) sessions)
        (none, sessions) (joined-Kept s (find (λ u. u.id == s.user_id) db.users) found) untouched

  used-Kept : Kept (validate_session ttl db now token sessions).1
  unfolding validate_session
  used-Kept =
      if-keeps (λ r. Kept r.1) (is_empty token) (none, sessions)
        (validated ttl db now token (find (has_token token) sessions) sessions) untouched
        (validated-Kept (find (has_token token) sessions) refl)

opened_rows :
    (ttl : Ttl) (user tenant : ℕ) (token csrf : Text) (now : ℕ) (es : List SessionEvent)
    (sessions : List Session)
    → All (LastingRow ttl es) sessions
    → All
        (LastingRow ttl (opened user tenant token csrf now ∷ es))
        (created_rows (create_session ttl user tenant token csrf now sessions) sessions)
unfolding create_session
opened_rows ttl user tenant token csrf now es sessions h =
    let event = opened user tenant token csrf now in
    let older = older_rows ttl event es sessions h in
    if-keeps (λ o. All (LastingRow ttl (event ∷ es)) (created_rows o sessions))
      (any (has_token token) sessions) none
      (some (
        new_session ttl user tenant token csrf now,
        sessions ++ new_session ttl user tenant token csrf now ∷ [],
      ))
      older
      (All-append (LastingRow ttl (event ∷ es)) sessions
        (new_session ttl user tenant token csrf now ∷ []) older
        (new_row ttl user tenant token csrf now es, tt))

rows_last :
    (ttl : Ttl) (db : Identity) (es : List SessionEvent)
    → All (LastingRow ttl es) (sessions_after ttl db es)
unfolding sessions_after apply_event destroy_session
rows_last ttl db [] = tt
rows_last ttl db (opened user tenant token csrf now ∷ es) =
    opened_rows ttl user tenant token csrf now es (sessions_after ttl db es) (rows_last ttl db es)
rows_last ttl db (closed token ∷ es) =
    select-All (LastingRow ttl (closed token ∷ es)) (λ s. not (has_token token s))
      (sessions_after ttl db es)
      (older_rows ttl (closed token) es (sessions_after ttl db es) (rows_last ttl db es))
rows_last ttl db (used token now ∷ es) =
    used-Kept ttl db es token now (sessions_after ttl db es) (rows_last ttl db es)

-- A user that a session gives comes from a row with the token that has not expired.
joined-user :
    (ttl : Ttl) (db : Identity) (now : ℕ) (token : Text) (s : Session) (o : Option UserRow)
    (sessions : List Session) (live : Bool) (u : SessionUser)
    → (if live then joined ttl db now token s o sessions else (none, sessions)).0 ≡ some u
    → live ≡ true
joined-user ttl db now token s o sessions true u e = refl
joined-user ttl db now token s o sessions false u e = cc

validated-row :
    (ttl : Ttl) (db : Identity) (now : ℕ) (token : Text) (o : Option Session)
    (sessions : List Session) (u : SessionUser)
    → (validated ttl db now token o sessions).0 ≡ some u
    → (s : Session) × (o ≡ some s) × (now < s.expires_at)
validated-row ttl db now token none sessions u e = cc
validated-row ttl db now token (some s) sessions u e =
    let live =
      joined-user ttl db now token s (find (λ r. r.id == s.user_id) db.users) sessions
        (ltb now s.expires_at) u e in
    (s, refl, ground arith)

pub session_row :
    (ttl : Ttl) (db : Identity) (now : ℕ) (token : Text) (sessions : List Session) (u : SessionUser)
    → (validate_session ttl db now token sessions).0 ≡ some u
    → (s : Session) × (find (has_token token) sessions ≡ some s) × (now < s.expires_at)
unfolding validate_session
session_row ttl db now token sessions u e = elim (Bool-cases (is_empty token)) [
  | inl none_given ↦ cc (rw none_given at e)
  | inr given ↦
      validated-row ttl db now token (find (has_token token) sessions) sessions u (rw given at e)
]

-- After any history of logins, logouts and uses, a token that is accepted at a time was opened
-- less than the absolute limit before and, unless the idle timeout is off, was opened or used
-- less than the idle limit before.
pub session_lifetime :
    (ttl : Ttl) (db : Identity) (es : List SessionEvent) (token : Text) (now : ℕ) (u : SessionUser)
    → (validate_session ttl db now token (sessions_after ttl db es)).0 ≡ some u
    → Lasts ttl es token (suc now)
unfolding text_eq has_token
session_lifetime ttl db es token now u e =
    let (s, found, live) = session_row ttl db now token (sessions_after ttl db es) u e in
    let h =
      find-All (LastingRow ttl es) (has_token token) (sessions_after ttl db es)
        (rows_last ttl db es) found in
    let same =
      text_eq_sound s.token token
        (find-passes (has_token token) (sessions_after ttl db es) found) in
    (
      (
        s.created_at,
        subst (λ t. OpenedAt t es s.created_at) same h.0.0,
        omega (arith, h.0.1, live),
      ),
      elim h.1 [
        | inl off ↦ inl off
        | inr touched ↦ inr (
          touched.0,
          subst (λ t. TouchedAt t es touched.0) same touched.1,
          omega (arith, touched.2, live),
        )
      ],
    )
