-- ===== src/Http/Client.antt =====
-- `serviceRequest` (packages/shared/service-client.mjs): the loop of attempts. What each attempt
-- meets is given by a list; how long `backoff` waits is left out. The loop has fuel for the
-- attempts that are left, which is what its counter counts.
use stablecoin_treasury.Prelude.{
  ℕ, zero, suc, ◌≤◌, ◌≡◌, inl, inr, Bool, true, false, not, ◌&&◌, ◌||◌, Option, none, some, List,
  [], ◌∷◌, arith, ltb, leb, ◌==◌, if◌then◌else◌, Bool-cases, any,
}
use stablecoin_treasury.Prelude.Outcome.{Outcome, ok, err}

-- What `fetch` and the reading of the body come to. A reply has a status and, if its body is no
-- JSON, none; a failure of the connection has no status.
pub data Reply : Type 0 where
  reply : ℕ → Option ℕ → Reply
  timed_out unreachable : Reply

-- The status of an error, and whether it is an AbortError.
pub record ClientError : Type 0 where
  pub status : ℕ
  pub is_abort : Bool

-- `response.ok`
abbrev pub is_ok : ℕ → Bool
is_ok status = leb 200 status && ltb status 300

-- `shouldRetry`
abbrev pub should_retry : ℕ → Bool
should_retry status = any (λ s. s == status) (408 ∷ 429 ∷ 502 ∷ 503 ∷ 504 ∷ [])

-- What is thrown in the `try`, after `normalizeError`; a status of 0 counts as none.
abbrev with_status : ℕ → ClientError
with_status status =
    if status == 0
    then record { status = 502; is_abort = false }
    else record { status = status; is_abort = false }

unfoldable pub read_reply : Reply → Outcome ClientError ℕ
read_reply timed_out = err (record { status = 504; is_abort = true })
read_reply unreachable = err (record { status = 502; is_abort = false })
read_reply (reply status none) =
    if is_ok status
    then err (record { status = 502; is_abort = false })
    else err (with_status status)
read_reply (reply status (some data_read)) =
    if is_ok status then ok data_read else err (with_status status)

-- `isRetryableError`
abbrev pub is_retryable : ClientError → Bool
is_retryable e = e.is_abort || should_retry e.status

-- The loop, and the number of requests that it sends. The branches that go on inside the `try`
-- are those of a 502 for a body that is no JSON, where the call is retryable, and of a status to
-- retry; the `catch` tests that the call is retryable and the error too.
abbrev pub goes_on : Bool → Reply → ClientError → Bool
goes_on retryable (reply status none) e =
    (is_ok status && retryable)
    || ((not (is_ok status) && should_retry status) || (retryable && is_retryable e))
goes_on retryable (reply status (some _)) e = should_retry status || (retryable && is_retryable e)
goes_on retryable timed_out e = retryable && is_retryable e
goes_on retryable unreachable e = retryable && is_retryable e

-- One attempt, with those that are left after it.
abbrev attempt_on :
    Bool → ℕ → Reply → Outcome ClientError ℕ → Outcome ClientError ℕ × ℕ → Outcome ClientError ℕ × ℕ
attempt_on retryable left r (ok d) rest = (ok d, 1)
attempt_on retryable zero r (err e) rest = (err e, 1)
attempt_on retryable (suc left) r (err e) rest =
    if goes_on retryable r e then (rest.0, suc rest.1) else (err e, 1)

-- `left` attempts follow the one at hand; a list that is too short stands for a service that
-- is unreachable.
unfoldable pub request_loop : Bool → ℕ → List Reply → Outcome ClientError ℕ × ℕ
request_loop retryable zero [] =
    attempt_on retryable zero unreachable (read_reply unreachable) (err (with_status 0), 0)
request_loop retryable zero (r ∷ rs) =
    attempt_on retryable zero r (read_reply r) (err (with_status 0), 0)
request_loop retryable (suc left) [] =
    attempt_on retryable (suc left) unreachable (read_reply unreachable)
      (request_loop retryable left [])
request_loop retryable (suc left) (r ∷ rs) =
    attempt_on retryable (suc left) r (read_reply r) (request_loop retryable left rs)

-- `const attempts = options.retryable ? defaultRetries + 1 : 1`
unfoldable pub service_request : ℕ → Bool → List Reply → Outcome ClientError ℕ × ℕ
service_request default_retries retryable replies =
    request_loop retryable (if retryable then default_retries else 0) replies

abbrev pub Sent : ℕ → ℕ → Type 0
Sent limit n = (1 ≤ n) × (n ≤ limit)

attempt-Sent :
    (retryable : Bool) (left : ℕ) (r : Reply) (o : Outcome ClientError ℕ)
    (rest : Outcome ClientError ℕ × ℕ)
    → rest.1 ≤ left
    → Sent (suc left) (attempt_on retryable left r o rest).1
attempt-Sent retryable left r (ok d) rest h = omega arith
attempt-Sent retryable zero r (err e) rest h = omega arith
attempt-Sent retryable (suc left) r (err e) rest h = elim (Bool-cases (goes_on retryable r e)) [
  | inl again ↦ rw again (omega (arith, h))
  | inr over ↦ rw over (omega arith)
]

loop-Sent :
    (retryable : Bool) (left : ℕ) (rs : List Reply)
    → Sent (suc left) (request_loop retryable left rs).1
unfolding request_loop
loop-Sent retryable zero [] =
    attempt-Sent retryable zero unreachable (read_reply unreachable) (err (with_status 0), 0)
      (omega arith)
loop-Sent retryable zero (r ∷ rs) =
    attempt-Sent retryable zero r (read_reply r) (err (with_status 0), 0) (omega arith)
loop-Sent retryable (suc left) [] =
    attempt-Sent retryable (suc left) unreachable (read_reply unreachable)
      (request_loop retryable left []) (loop-Sent retryable left []).1
loop-Sent retryable (suc left) (r ∷ rs) =
    attempt-Sent retryable (suc left) r (read_reply r) (request_loop retryable left rs)
      (loop-Sent retryable left rs).1

-- A call of a service sends at least one request and at most one more than the retries; a call
-- that is not retryable sends exactly one.
pub service_request-bounded :
    (default_retries : ℕ) (replies : List Reply)
    → Sent (suc default_retries) (service_request default_retries true replies).1
      × ((service_request default_retries false replies).1 ≡ 1)
unfolding service_request
service_request-bounded default_retries replies =
    let once = loop-Sent false 0 replies in
    (loop-Sent true default_retries replies, omega (arith, once.0, once.1))
