-- ===== src/Access/Logout.antt =====
-- A session that was ended stays ended.
use stablecoin_treasury.Prelude.{
  ℕ, ◌≡◌, refl, inl, inr, Bool, false, not, Option, none, some, List, [], ◌∷◌, ◌++◌, ltb, ◌==◌,
  Bool-cases, find, select, any, All, All-append, select-All, if-keeps,
}
use stablecoin_treasury.Prelude.Strings.{Text, text_eq, is_empty}
use stablecoin_treasury.Access.Sessions.{
  Session, UserRow, Identity, Ttl, has_token, new_session, create_session, destroy_session, bumped,
  extend_session, bump_to, joined, validated, validate_session,
}
use stablecoin_treasury.Access.History.{
  SessionEvent, opened, closed, used, created_rows, apply_event, sessions_after,
}

-- No session has the token.
abbrev pub Ended : Text → List Session → Type 0
Ended token sessions = All (λ s. has_token token s ≡ false) sessions

-- The event opens no session with the token.
unfoldable pub OpensOther : Text → SessionEvent → Type 0
unfolding text_eq
OpensOther token (opened _ _ given _ _) = text_eq given token ≡ false
OpensOther token (closed _) = Unit
OpensOther token (used _ _) = Unit

select_out {ℓ} :
    {A : Type ℓ} (p : A → Bool) (xs : List A) → All (λ x. p x ≡ false) (select (λ x. not (p x)) xs)
select_out p [] = tt
select_out p (x ∷ xs) = elim (Bool-cases (p x)) [
  | inl e ↦ rw e (select_out p xs)
  | inr e ↦ rw e (e, select_out p xs)
]

pub destroy-Ended :
    (token : Text) (sessions : List Session) → Ended token (destroy_session token sessions)
unfolding destroy_session
destroy-Ended token sessions = select_out (has_token token) sessions

find-none {ℓ} :
    {A : Type ℓ} (p : A → Bool) (xs : List A) → All (λ x. p x ≡ false) xs → find p xs ≡ none
find-none p [] h = refl
find-none p (x ∷ xs) h = rw h.0 (find-none p xs h.1)

extend-Ended :
    (token given : Text) (expires : ℕ) (sessions : List Session)
    → Ended token sessions
    → Ended token (extend_session given expires sessions)
unfolding extend_session has_token
extend-Ended token given expires [] h = tt
extend-Ended token given expires (s ∷ ss) h =
    if-keeps (Ended token) (has_token given s) (record s { expires_at = expires } ∷ ss)
      (s ∷ extend_session given expires ss) h (h.0, extend-Ended token given expires ss h.1)

module _ (ttl : Ttl) (db : Identity) (token : Text) where
  bump-Ended :
      (given : Text) (o : Option ℕ) (sessions : List Session)
      → Ended token sessions
      → Ended token (bump_to given o sessions)
  bump-Ended given none sessions h = h
  bump-Ended given (some expires) sessions h = extend-Ended token given expires sessions h

  joined-Ended :
      (now : ℕ) (given : Text) (s : Session) (o : Option UserRow) (sessions : List Session)
      → Ended token sessions
      → Ended token (joined ttl db now given s o sessions).1
  joined-Ended now given s none sessions h = h
  joined-Ended now given s (some u) sessions h = bump-Ended given (bumped ttl now s) sessions h

  validated-Ended :
      (now : ℕ) (given : Text) (o : Option Session) (sessions : List Session)
      → Ended token sessions
      → Ended token (validated ttl db now given o sessions).1
  validated-Ended now given none sessions h = h
  validated-Ended now given (some s) sessions h =
      if-keeps (λ r. Ended token r.1) (ltb now s.expires_at)
        (joined ttl db now given s (find (λ u. u.id == s.user_id) db.users) sessions)
        (none, sessions)
        (joined-Ended now given s (find (λ u. u.id == s.user_id) db.users) sessions h) h

  pub event-Ended :
      (e : SessionEvent) (sessions : List Session)
      → OpensOther token e
      → Ended token sessions
      → Ended token (apply_event ttl db e sessions)
  unfolding apply_event create_session destroy_session validate_session new_session has_token
      OpensOther
  event-Ended (opened user tenant given csrf now) sessions other h =
      let row = new_session ttl user tenant given csrf now in
      if-keeps (λ o. Ended token (created_rows o sessions)) (any (has_token given) sessions) none
        (some (row, sessions ++ row ∷ [])) h
        (All-append (λ s. has_token token s ≡ false) sessions (row ∷ []) h (other, tt))
  event-Ended (closed given) sessions other h =
      select-All (λ s. has_token token s ≡ false) (λ s. not (has_token given s)) sessions h
  event-Ended (used given now) sessions other h =
      if-keeps (λ r. Ended token r.1) (is_empty given) (none, sessions)
        (validated ttl db now given (find (has_token given) sessions) sessions) h
        (validated-Ended now given (find (has_token given) sessions) sessions h)

  history-Ended :
      (later earlier : List SessionEvent)
      → All (OpensOther token) later
      → Ended token (sessions_after ttl db (later ++ closed token ∷ earlier))
  unfolding sessions_after apply_event
  history-Ended [] earlier h = destroy-Ended token (sessions_after ttl db earlier)
  history-Ended (e ∷ later) earlier h =
      event-Ended e (sessions_after ttl db (later ++ closed token ∷ earlier)) h.0
        (history-Ended later earlier h.1)

  pub Ended-refused :
      (now : ℕ) (sessions : List Session)
      → Ended token sessions
      → (validate_session ttl db now token sessions).0 ≡ none
  unfolding validate_session
  Ended-refused now sessions h =
      if-keeps (λ r. r.0 ≡ none) (is_empty token) (none, sessions)
        (validated ttl db now token (find (has_token token) sessions) sessions) refl
        (rw (find-none (has_token token) sessions h) refl)

-- A token whose session was destroyed is accepted at no later time, whatever happens since, so
-- long as no new session draws the same token.
pub logged_out_for_good :
    (ttl : Ttl) (db : Identity) (token : Text) (later earlier : List SessionEvent) (now : ℕ)
    → All (OpensOther token) later
    → (validate_session ttl db now token
        (sessions_after ttl db (later ++ closed token ∷ earlier))).0
      ≡ none
logged_out_for_good ttl db token later earlier now h =
    Ended-refused ttl db token now (sessions_after ttl db (later ++ closed token ∷ earlier))
      (history-Ended ttl db token later earlier h)
