-- ===== src/Http/Limits.antt =====
-- `createRateLimiter` (packages/shared/http.mjs) and the login limiter (packages/shared/auth.mjs),
-- for one key of their maps: `none` is a key without a bucket. Times are milliseconds.
use stablecoin_treasury.Prelude.{
  ℕ, suc, ◌+◌, ◌-◌, ◌≤◌, ◌<◌, Bool, true, false, not, ◌&&◌, Option, none, some, List, [], ◌∷◌, ltb,
  leb, if◌then◌else◌, All, ◌≡◌, refl, inl, inr, arith, Bool-cases,
}

pub record RateBucket : Type 0 where
  pub tokens : ℕ
  pub reset_at : ℕ

-- The bucket of a check: a new one where there is none or its window is over.
abbrev pub current_bucket : ℕ → ℕ → ℕ → Option RateBucket → RateBucket
current_bucket window limit now none = record { tokens = limit; reset_at = now + window }
current_bucket window limit now (some b) =
    if leb b.reset_at now then record { tokens = limit; reset_at = now + window } else b

-- `check`: whether the request is allowed, and the bucket.
unfoldable pub rate_check : ℕ → ℕ → ℕ → Option RateBucket → Bool × RateBucket
rate_check window limit now o =
    let b = current_bucket window limit now o in
    if ltb 0 b.tokens then (true, record b { tokens = b.tokens - 1 }) else (false, b)

-- A tick of the cleanup timer.
unfoldable pub rate_cleanup : ℕ → Option RateBucket → Option RateBucket
rate_cleanup now none = none
rate_cleanup now (some b) = if leb b.reset_at now then none else some b

-- What happens to a key: requests, and ticks of the timer.
pub data RateEvent : Type 0 where
  request tick : ℕ → RateEvent

-- The requests that are allowed, over a list of events.
unfoldable pub allowed : ℕ → ℕ → List RateEvent → Option RateBucket → ℕ
allowed window limit [] o = 0
allowed window limit (request now ∷ es) o =
    let (pass, b) = rate_check window limit now o in
    (if pass then 1 else 0) + allowed window limit es (some b)
allowed window limit (tick now ∷ es) o = allowed window limit es (rate_cleanup now o)

-- The events stand before a time.
abbrev pub Before : ℕ → RateEvent → Type 0
Before end (request now) = now < end
Before end (tick now) = now < end

-- While a bucket's window lasts, it allows at most the requests that it has tokens for.
pub allowed-tokens :
    (window limit : ℕ) (es : List RateEvent) (b : RateBucket)
    → All (Before b.reset_at) es
    → allowed window limit es (some b) ≤ b.tokens
unfolding allowed rate_check rate_cleanup
allowed-tokens window limit [] b h = omega arith
allowed-tokens window limit (request now ∷ es) b h = elim (Bool-cases (ltb 0 b.tokens)) [
  | inl some_left ↦
      let rest = allowed-tokens window limit es (record b { tokens = b.tokens - 1 }) h.1 in
      ground arith
  | inr none_left ↦ let rest = allowed-tokens window limit es b h.1 in ground arith
]
allowed-tokens window limit (tick now ∷ es) b h =
    let rest = allowed-tokens window limit es b h.1 in ground arith

-- A request at a time opens a new window: there is no bucket, or its window is over.
abbrev pub Opens : ℕ → Option RateBucket → Type 0
Opens now none = Unit {0}
Opens now (some b) = b.reset_at ≤ now

opened_bucket :
    (window limit now : ℕ) (o : Option RateBucket)
    → Opens now o
    → current_bucket window limit now o ≡ record { tokens = limit; reset_at = now + window }
opened_bucket window limit now none h = refl
opened_bucket window limit now (some b) h =
    let over : leb b.reset_at now ≡ true = ground arith in rw over refl

-- From a request that opens a key's window, the first one or one after an earlier window is over,
-- to the end of the window the limiter allows at most the limit, however the cleanup timer ticks.
pub rate_check-bounded :
    (window limit now : ℕ) (o : Option RateBucket) (es : List RateEvent)
    → Opens now o
    → All (Before (now + window)) es
    → allowed window limit (request now ∷ es) o ≤ limit
unfolding allowed rate_check
rate_check-bounded window limit now o es opens h =
    let new = opened_bucket window limit now o opens in
    elim (Bool-cases (ltb 0 limit)) [
      | inl some_left ↦
          let rest =
            allowed-tokens window limit es (record { tokens = limit - 1; reset_at = now + window })
              h in
          rw (new, some_left) (ground arith)
      | inr none_left ↦
          let rest =
            allowed-tokens window limit es (record { tokens = limit; reset_at = now + window }) h in
          rw (new, none_left) (ground arith)
    ]

pub record LoginBucket : Type 0 where
  pub count : ℕ
  pub window_start : ℕ
  pub locked_until : ℕ

-- `loginBucket`
unfoldable pub login_bucket : ℕ → ℕ → Option LoginBucket → LoginBucket
login_bucket window now none = record { count = 0; window_start = now; locked_until = 0 }
login_bucket window now (some b) =
    if leb (b.window_start + window) now
    then record { count = 0; window_start = now; locked_until = 0 }
    else b

-- The timer of `loginBucket`.
unfoldable pub login_cleanup : ℕ → ℕ → Option LoginBucket → Option LoginBucket
login_cleanup window now none = none
login_cleanup window now (some b) =
    if leb (b.window_start + window) now && leb b.locked_until now then none else some b

-- `checkLoginRateLimit`: whether the attempt is allowed, and the bucket.
unfoldable pub check_login : ℕ → ℕ → Option LoginBucket → Bool × LoginBucket
check_login window now o = let b = login_bucket window now o in (not (ltb now b.locked_until), b)

-- `recordLoginFailure`
unfoldable pub record_login_failure : ℕ → ℕ → ℕ → ℕ → Option LoginBucket → LoginBucket
record_login_failure window max_failures lockout now o =
    let b = login_bucket window now o in
    if leb max_failures (suc b.count)
    then record b { count = suc b.count; locked_until = now + lockout }
    else record b { count = suc b.count }

-- `clearLoginFailures`
abbrev pub clear_login_failures : Option LoginBucket → Option LoginBucket
clear_login_failures _ = none
