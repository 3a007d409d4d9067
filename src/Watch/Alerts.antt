-- ===== src/Watch/Alerts.antt =====
-- The alerts that jobs raise and close: the watchdog and the verification of the audit chain
-- (services/job-worker/src/handlers). operations.alerts is listed with the newest row first; the
-- texts of ids, severities and details are left out.
use stablecoin_treasury.Prelude.{
  ℕ, Bool, true, false, ◌&&◌, Option, none, some, List, [], ◌∷◌, map, ltb, ◌==◌, if◌then◌else◌,
  find, any,
}
use stablecoin_treasury.Prelude.Strings.{Text, text_eq}
use stablecoin_treasury.Audit.Chain.{Break}

-- The titles of the checks and of a broken audit chain.
pub data Title : Type 0 where
  stuck_executing outbox_lag dead_letters outbox_dead_letters pending_job_age : Title
  chain_violation : Title

abbrev pub title_code : Title → ℕ
title_code stuck_executing = 0
title_code outbox_lag = 1
title_code dead_letters = 2
title_code outbox_dead_letters = 3
title_code pending_job_age = 4
title_code chain_violation = 5

pub record Alert : Type 0 where
  pub tenant_id : Text
  pub title : Title
  pub is_open : Bool

unfoldable pub has_key : Text → Title → Alert → Bool
unfolding text_eq
has_key tenant title a = text_eq a.tenant_id tenant && title_code a.title == title_code title

-- The status of the newest alert.
abbrev pub open_alert : Option Alert → Bool
open_alert none = false
open_alert (some a) = a.is_open

unfoldable pub close : Text → Title → Alert → Alert
unfolding has_key
close tenant title a =
    if has_key tenant title a && a.is_open then record a { is_open = false } else a

abbrev pub new_alert : Text → Title → Alert
new_alert tenant title = record { tenant_id = tenant; title = title; is_open = true }

-- `evaluateCheck`
unfoldable pub evaluate_check : Text → Title → ℕ → ℕ → List Alert → List Alert
unfolding close has_key
evaluate_check tenant title threshold count alerts =
    let is_open = open_alert (find (has_key tenant title) alerts) in
    if ltb threshold count
    then (if is_open then alerts else new_alert tenant title ∷ alerts)
    else if is_open
    then map (close tenant title) alerts
    else alerts

-- CHECKS, with the thresholds that the environment may set.
pub record Thresholds : Type 0 where
  pub outbox_lag_ms : ℕ
  pub pending_job_age_ms : ℕ

abbrev pub checks_of : Thresholds → List (Title × ℕ)
checks_of t =
    (stuck_executing, 0)
    ∷ (outbox_lag, t.outbox_lag_ms)
    ∷ (dead_letters, 0)
    ∷ (outbox_dead_letters, 0)
    ∷ (pending_job_age, t.pending_job_age_ms)
    ∷ []

unfoldable pub run_checks : Text → (Title → ℕ) → List (Title × ℕ) → List Alert → List Alert
unfolding evaluate_check
run_checks tenant value [] alerts = alerts
run_checks tenant value (c ∷ cs) alerts =
    run_checks tenant value cs (evaluate_check tenant c.0 c.1 (value c.0) alerts)

-- `runWatchdog`, for the active tenants and the values that the queries give.
unfoldable pub run_watchdog : Thresholds → List Text → (Text → Title → ℕ) → List Alert → List Alert
unfolding run_checks
run_watchdog t [] value alerts = alerts
run_watchdog t (tenant ∷ tenants) value alerts =
    run_watchdog t tenants value (run_checks tenant (value tenant) (checks_of t) alerts)

abbrev close_chain : Alert → Alert
close_chain a =
    if title_code a.title == title_code chain_violation && a.is_open
    then record a { is_open = false }
    else a

abbrev is_open_chain : Text → Alert → Bool
unfolding has_key
is_open_chain tenant a = has_key tenant chain_violation a && a.is_open

-- `verifyChains`, for what `verifyAuditChain` found.
unfoldable pub verify_chains : Option Break → List Alert → List Alert
unfolding is_open_chain
verify_chains none alerts = map close_chain alerts
verify_chains (some broken) alerts =
    if any (is_open_chain broken.tenant_id) alerts
    then alerts
    else new_alert broken.tenant_id chain_violation ∷ alerts
