-- ===== src/Custody/Breaker.antt =====
-- `withBreaker`, in two parts: what happens before the call and after it. `max_failures` and
-- `reset_ms` are the environment variables BREAKER_MAX_FAILURES and BREAKER_RESET_MS.
use stablecoin_treasury.Prelude.{
  ℕ, suc, ◌-◌, Bool, true, false, Option, none, some, ltb, leb, if◌then◌else◌,
}

pub data BreakerState : Type 0 where
  closed open_state half_open : BreakerState

pub record Breaker : Type 0 where
  pub state : BreakerState
  pub failures : ℕ
  pub opened_at : ℕ

abbrev pub new_breaker : Breaker
new_breaker = record { state = closed; failures = 0; opened_at = 0 }

-- The breaker when the call is made, or `none`: the circuit is open.
abbrev enter_state : ℕ → ℕ → Breaker → BreakerState → Option Breaker
enter_state reset_ms now b closed = some b
enter_state reset_ms now b half_open = some b
enter_state reset_ms now b open_state =
    if ltb reset_ms (now - b.opened_at) then some (record b { state = half_open }) else none

unfoldable pub enter_breaker : ℕ → ℕ → Breaker → Option Breaker
enter_breaker reset_ms now b = enter_state reset_ms now b b.state

abbrev after_probe : BreakerState → BreakerState
after_probe half_open = closed
after_probe closed = closed
after_probe open_state = open_state

unfoldable pub call_succeeded : Breaker → Breaker
call_succeeded b = record b { state = after_probe b.state; failures = 0 }

unfoldable pub call_failed : ℕ → ℕ → Breaker → Breaker
call_failed max_failures now b =
    let counted = record b { failures = suc b.failures } in
    if leb max_failures (suc b.failures)
    then record counted { state = open_state; opened_at = now }
    else counted

-- One call through the breaker at a time; `true` is a call that succeeds. The second component
-- tells whether the call was made.
abbrev pub settle_breaker : ℕ → ℕ → Bool → Breaker → Breaker
settle_breaker max_failures now true b = call_succeeded b
settle_breaker max_failures now false b = call_failed max_failures now b

abbrev pub breaker_call_on : ℕ → ℕ → Bool → Breaker → Option Breaker → Breaker × Bool
breaker_call_on max_failures now result b none = (b, false)
breaker_call_on max_failures now result b (some entered) =
    (settle_breaker max_failures now result entered, true)

unfoldable pub breaker_call : ℕ → ℕ → ℕ → Bool → Breaker → Breaker × Bool
breaker_call max_failures reset_ms now result b =
    breaker_call_on max_failures now result b (enter_breaker reset_ms now b)
