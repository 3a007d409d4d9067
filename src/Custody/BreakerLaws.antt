-- ===== src/Custody/BreakerLaws.antt =====
-- The circuit breaker over any sequence of calls made one at a time.
use stablecoin_treasury.Prelude.{
  ℕ, ◌≤◌, ◌<◌, Bool, List, ◌∷◌, ◌-◌, inl, inr, true, false, [], ltb, Bool-cases, suc, ◌≡◌, refl,
  leb, if◌then◌else◌, arith,
}
use stablecoin_treasury.Custody.Breaker.{
  new_breaker, BreakerState, closed, open_state, half_open, Breaker, enter_breaker, call_succeeded,
  call_failed, breaker_call,
}

-- What the breaker means: it counts the failures since the last success, and at the limit it is
-- tripped, at the time of the last failed call.
pub data Meaning : Type 0 where
  counting : ℕ → Meaning
  tripped : ℕ → Meaning

abbrev pub after_failure : ℕ → ℕ → ℕ → Meaning
after_failure limit now count = if leb limit count then tripped now else counting count

-- A tripped breaker lets one call through after the pause; it closes again or is tripped anew.
abbrev pub meaning_call : ℕ → ℕ → ℕ → Bool → Meaning → Meaning × Bool
meaning_call limit reset now true (counting n) = (counting 0, true)
meaning_call limit reset now false (counting n) = (after_failure limit now (suc n), true)
meaning_call limit reset now true (tripped at) =
    if ltb reset (now - at) then (counting 0, true) else (tripped at, false)
meaning_call limit reset now false (tripped at) =
    if ltb reset (now - at) then (tripped now, true) else (tripped at, false)

-- A call, at a time and with a result if it is made.
pub record Call : Type 0 where
  pub time : ℕ
  pub succeeds : Bool

-- Which calls of a sequence are made.
unfoldable pub meaning_calls : ℕ → ℕ → List Call → Meaning → List Bool
meaning_calls limit reset [] m = []
meaning_calls limit reset (c ∷ cs) m =
    let (m', made) = meaning_call limit reset c.time c.succeeds m in
    made ∷ meaning_calls limit reset cs m'

unfoldable pub breaker_calls : ℕ → ℕ → List Call → Breaker → List Bool
breaker_calls max_failures reset_ms [] b = []
breaker_calls max_failures reset_ms (c ∷ cs) b =
    let (b', made) = breaker_call max_failures reset_ms c.time c.succeeds b in
    made ∷ breaker_calls max_failures reset_ms cs b'

-- The breaker that means `m`; an open one has counted at least the limit.
abbrev pub Means : ℕ → Meaning → BreakerState → ℕ → ℕ → Type 0
Means limit (counting n) closed failures opened = (failures ≡ n) × (n < limit)
Means limit (tripped at) open_state failures opened = (opened ≡ at) × (limit ≤ failures)
Means limit _ _ failures opened = ⊥

module _ (limit reset now : ℕ) (positive : 0 < limit) where
  breaker_call-Means :
      (result : Bool) (m : Meaning) (s : BreakerState) (failures opened : ℕ)
      → Means limit m s failures opened
      → let b =
          breaker_call limit reset now result
            (record { state = s; failures = failures; opened_at = opened }) in
        let spec = meaning_call limit reset now result m in
        Means limit spec.0 b.0.state b.0.failures b.0.opened_at × (b.1 ≡ spec.1)
  unfolding breaker_call enter_breaker call_succeeded call_failed
  breaker_call-Means true (counting n) closed f opened h = ((refl, positive), refl)
  breaker_call-Means false (counting n) closed f opened h = elim (Bool-cases (leb limit (suc f))) [
    | inl full ↦ rw (← h.0, full) ((refl, ground arith), refl)
    | inr room ↦ rw (← h.0, room) ((refl, ground arith), refl)
  ]
  breaker_call-Means true (tripped at) open_state f opened h =
      elim (Bool-cases (ltb reset (now - opened))) [
        | inl late ↦ rw (← h.0, late) ((refl, positive), refl)
        | inr early ↦ rw (← h.0, early) ((refl, h.1), refl)
      ]
  breaker_call-Means false (tripped at) open_state f opened h =
      elim (Bool-cases (ltb reset (now - opened))) [
        | inl late ↦ elim (Bool-cases (leb limit (suc f))) [
          | inl full ↦ rw (← h.0, late, full) ((refl, ground arith), refl)
          | inr room ↦ ground arith
        ]
        | inr early ↦ rw (← h.0, early) ((refl, h.1), refl)
      ]
  breaker_call-Means result (counting n) open_state f opened h = elim h [ ]
  breaker_call-Means result (counting n) half_open f opened h = elim h [ ]
  breaker_call-Means result (tripped n) closed f opened h = elim h [ ]
  breaker_call-Means result (tripped n) half_open f opened h = elim h [ ]

-- Over any sequence of calls made one at a time, at any times and with any results, the breaker
-- makes exactly the calls that its meaning allows: it lets calls through while fewer than the
-- limit have failed since the last success, then none until the pause has passed since the last
-- failure, and then one, whose result closes it or trips it anew.
pub breaker_calls-meaning :
    (limit reset : ℕ) (calls : List Call)
    → 0 < limit
    → breaker_calls limit reset calls new_breaker ≡ meaning_calls limit reset calls (counting 0)
unfolding breaker_calls meaning_calls
breaker_calls-meaning limit reset calls positive =
    from limit reset positive calls (counting 0) closed 0 0 (refl, positive)
  where
    from :
        (limit reset : ℕ)
        → 0 < limit
        → (calls : List Call) (m : Meaning) (s : BreakerState) (failures opened : ℕ)
        → Means limit m s failures opened
        → breaker_calls limit reset calls
            (record { state = s; failures = failures; opened_at = opened })
          ≡ meaning_calls limit reset calls m
    from limit reset positive [] m s f o h = refl
    from limit reset positive (c ∷ cs) m s f o h =
        let one = breaker_call-Means limit reset c.time positive c.succeeds m s f o h in
        let rest = from limit reset positive cs _ _ _ _ one.0 in cc (one.1, rest)
