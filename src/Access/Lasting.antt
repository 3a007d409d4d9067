-- ===== src/Access/Lasting.antt =====
-- The rows of sessions after each step of a history: what lasts from one to the next.
use stablecoin_treasury.Prelude.{
  ℕ, ◌+◌, ◌≤◌, ◌≡◌, ◌⊎◌, Bool, true, ◌&&◌, some, List, [], ◌∷◌, ◌==◌, any, refl, inl, inr, arith,
  ltb, ==_refl, Bool-cases, find, All, All-map, min, sym, subst, if◌then◌else◌, min_left, min_right,
}
use stablecoin_treasury.Prelude.Strings.{Text, text_eq, text_eq_refl, text_eq_sound}
use stablecoin_treasury.Access.Sessions.{
  Session, Ttl, absolute_ms, idle_ms, has_token, new_session, bumped, extend_session, grace_ms,
}
use stablecoin_treasury.Access.History.{
  SessionEvent, opened, used, opens_at, touches_at, OpenedAt, TouchedAt,
}

-- A row lasts: it was created when its token was opened, and expires within both limits.
abbrev pub LastingRow : Ttl → List SessionEvent → Session → Type 0
LastingRow ttl es s =
    (OpenedAt s.token es s.created_at × (s.expires_at ≤ s.created_at + absolute_ms ttl))
    × ((ttl.idle_minutes ≡ 0)
        ⊎ ((t : ℕ) × TouchedAt s.token es t × (s.expires_at ≤ t + idle_ms ttl)))

any_more {ℓ} :
    {A : Type ℓ} (p : A → Bool) (x : A) (xs : List A) → any p xs ≡ true → any p (x ∷ xs) ≡ true
any_more p x xs h = elim (Bool-cases (p x)) [ inl e ↦ rw e refl | inr e ↦ rw e h ]

any_first {ℓ} :
    {A : Type ℓ} (p : A → Bool) (x : A) (xs : List A) → p x ≡ true → any p (x ∷ xs) ≡ true
any_first p x xs h = rw h refl

older_row :
    (ttl : Ttl) (e : SessionEvent) (es : List SessionEvent) (s : Session)
    → LastingRow ttl es s
    → LastingRow ttl (e ∷ es) s
older_row ttl e es s h = (
  (any_more (opens_at s.token s.created_at) e es h.0.0, h.0.1),
  elim h.1 [
    | inl off ↦ inl off
    | inr touched ↦
        inr (touched.0, any_more (touches_at s.token touched.0) e es touched.1, touched.2)
  ],
)

pub older_rows :
    (ttl : Ttl) (e : SessionEvent) (es : List SessionEvent) (sessions : List Session)
    → All (LastingRow ttl es) sessions
    → All (LastingRow ttl (e ∷ es)) sessions
older_rows ttl e es sessions h =
    All-map (LastingRow ttl es) (LastingRow ttl (e ∷ es)) (older_row ttl e es) sessions h

-- The row of a login.
pub new_row :
    (ttl : Ttl) (user tenant : ℕ) (token csrf : Text) (now : ℕ) (es : List SessionEvent)
    → LastingRow ttl
        (opened user tenant token csrf now ∷ es)
        (new_session ttl user tenant token csrf now)
unfolding new_session opens_at touches_at text_eq
new_row ttl user tenant token csrf now es =
    let here : (text_eq token token && now == now) ≡ true =
      rw (text_eq_refl token, ==_refl now) refl in
    (
      (
        any_first (opens_at token now) (opened user tenant token csrf now) es here,
        min_right (if ltb 0 ttl.idle_minutes then now + idle_ms ttl else now + absolute_ms ttl)
            (now + absolute_ms ttl),
      ),
      elim (Bool-cases (ltb 0 ttl.idle_minutes)) [
        | inl on ↦ inr (
          now,
          any_first (touches_at token now) (opened user tenant token csrf now) es here,
          rw on (min_left (now + idle_ms ttl) (now + absolute_ms ttl)),
        )
        | inr off ↦ inl (ground arith)
      ],
    )

bumped_value :
    (ttl : Ttl) (now : ℕ) (s : Session) (expires : ℕ)
    → bumped ttl now s ≡ some expires
    → expires ≡ min (now + idle_ms ttl) (s.created_at + absolute_ms ttl)
unfolding bumped
bumped_value ttl now s expires e =
    elim (Bool-cases (
      ltb 0 ttl.idle_minutes
      && (ltb (s.expires_at + grace_ms) (now + idle_ms ttl)
          && ltb s.expires_at (min (now + idle_ms ttl) (s.created_at + absolute_ms ttl))))) [
            | inl moves ↦ cc (rw moves at e)
            | inr stays ↦ cc (rw stays at e)
          ]

-- A use moves the expiry of its row within the limits.
bumped_row :
    (ttl : Ttl) (es : List SessionEvent) (token : Text) (s : Session) (now expires : ℕ)
    → LastingRow ttl es s
    → s.token ≡ token
    → bumped ttl now s ≡ some expires
    → LastingRow ttl (used token now ∷ es) (record s { expires_at = expires })
unfolding touches_at text_eq
bumped_row ttl es token s now expires h same e =
    let value = bumped_value ttl now s expires e in
    let here : touches_at s.token now (used token now) ≡ true =
      rw (same, text_eq_refl token, ==_refl now) refl in
    (
      (
        any_more (opens_at s.token s.created_at) (used token now) es h.0.0,
        subst (λ x. x ≤ s.created_at + absolute_ms ttl) (sym value)
            (min_right (now + idle_ms ttl) (s.created_at + absolute_ms ttl)),
      ),
      inr (
        now,
        any_first (touches_at s.token now) (used token now) es here,
        subst (λ x. x ≤ now + idle_ms ttl) (sym value)
            (min_left (now + idle_ms ttl) (s.created_at + absolute_ms ttl)),
      ),
    )

found_first :
    (token : Text) (x s : Session) (xs : List Session)
    → has_token token x ≡ true
    → find (has_token token) (x ∷ xs) ≡ some s
    → x ≡ s
found_first token x s xs here found = cc (rw here at found)

pub extended_rows :
    (ttl : Ttl) (es : List SessionEvent) (token : Text) (now expires : ℕ) (s : Session)
    (sessions : List Session)
    → All (LastingRow ttl es) sessions
    → find (has_token token) sessions ≡ some s
    → bumped ttl now s ≡ some expires
    → All (LastingRow ttl (used token now ∷ es)) (extend_session token expires sessions)
unfolding extend_session
extended_rows ttl es token now expires s [] h found e = cc
extended_rows ttl es token now expires s (x ∷ xs) h found e =
    elim (Bool-cases (has_token token x)) [
      | inl here ↦ rw here (
        bumped_row ttl es token x now expires h.0 (text_eq_sound x.token token here) (
            subst (λ r. bumped ttl now r ≡ some expires) (sym (found_first token x s xs here found))
              e),
        older_rows ttl (used token now) es xs h.1,
      )
      | inr other ↦ rw other (
        older_row ttl (used token now) es x h.0,
        extended_rows ttl es token now expires s xs h.1 (cc (rw other at found)) e,
      )
    ]
