-- ===== src/Watch/OneAlert.antt =====
-- The open alerts follow the checks.
use stablecoin_treasury.Prelude.{
  ℕ, ◌≡◌, refl, inl, inr, Bool, true, false, ◌&&◌, List, [], ◌∷◌, map, ltb, ◌==◌, if◌then◌else◌,
  Bool-cases, find, ap, if-keeps, subst, ◌∙◌, arith, and_left, and_right, sym, ==_iff,
}
use stablecoin_treasury.Prelude.Strings.{Text, text_eq, text_eq_sound}
use stablecoin_treasury.Watch.Alerts.{
  Title, title_code, Alert, has_key, open_alert, close, evaluate_check, new_alert, stuck_executing,
  outbox_lag, dead_letters, outbox_dead_letters, pending_job_age, chain_violation,
}
use stablecoin_treasury.Watch.OneOpen.{
  Evaluation, alerts_after, open_count, over_threshold, bit, Mirrors, own_count, own_newest,
  new_alert-key, closed_count, closed_newest,
}

-- An evaluation of the key's check.
own_check :
    (t : Text) (k : Title) (threshold count : ℕ) (alerts : List Alert) (over : Bool)
    → Mirrors t k alerts over
    → Mirrors t k (evaluate_check t k threshold count alerts) (ltb threshold count)
unfolding evaluate_check open_count Mirrors
own_check t k threshold count alerts true h = elim (Bool-cases (ltb threshold count)) [
  | inl high ↦ rw (high, h.1) h
  | inr low ↦ rw (low, h.1) (own_count t k alerts, own_newest t k alerts)
]
own_check t k threshold count alerts false h = elim (Bool-cases (ltb threshold count)) [
  | inl high ↦
      rw (high, h.1) (rw (new_alert-key t k) (omega (arith, h.0)), rw (new_alert-key t k) refl)
  | inr low ↦ rw (low, h.1) h
]

-- An evaluation of another check.
other_check :
    (t t' : Text) (k k' : Title) (threshold count : ℕ) (alerts : List Alert) (over : Bool)
    → (text_eq t t' && title_code k == title_code k') ≡ false
    → Mirrors t' k' alerts over
    → Mirrors t' k' (evaluate_check t k threshold count alerts) over
unfolding evaluate_check open_count has_key Mirrors
other_check t t' k k' threshold count alerts over differ h =
    let is_open = open_alert (find (has_key t k) alerts) in
    let stranger : has_key t' k' (new_alert t k) ≡ false = differ in
    if-keeps (λ l. Mirrors t' k' l over) (ltb threshold count)
      (if is_open then alerts else new_alert t k ∷ alerts)
      (if is_open then map (close t k) alerts else alerts)
      (if-keeps (λ l. Mirrors t' k' l over) is_open alerts (new_alert t k ∷ alerts) h
        (rw stranger (omega (arith, h.0)), rw stranger h.1))
      (if-keeps (λ l. Mirrors t' k' l over) is_open (map (close t k) alerts) alerts
        (closed_count t t' k k' differ alerts ∙ h.0, closed_newest t t' k k' differ alerts ∙ h.1) h)

title_of : ℕ → Title
title_of n =
    if n == 0
    then stuck_executing
    else if n == 1
    then outbox_lag
    else if n == 2
    then dead_letters
    else if n == 3
    then outbox_dead_letters
    else if n == 4
    then pending_job_age
    else chain_violation

title_back : (k : Title) → title_of (title_code k) ≡ k
unfolding title_of
title_back stuck_executing = refl
title_back outbox_lag = refl
title_back dead_letters = refl
title_back outbox_dead_letters = refl
title_back pending_job_age = refl
title_back chain_violation = refl

title_ext : (k k' : Title) → (title_code k == title_code k') ≡ true → k ≡ k'
title_ext k k' h =
    sym (title_back k) ∙ ap title_of ((==_iff (title_code k) (title_code k')).0 h) ∙ title_back k'

mirrored :
    (es : List Evaluation) (t : Text) (k : Title)
    → Mirrors t k (alerts_after es) (over_threshold t k es)
unfolding alerts_after over_threshold open_count Mirrors
mirrored [] t k = (refl, refl)
mirrored (e ∷ es) t k =
    let before_it = mirrored es t k in
    elim (Bool-cases (text_eq e.tenant_id t && title_code e.title == title_code k)) [
      | inr other ↦ rw other (
          other_check e.tenant_id t e.title k e.threshold e.count (alerts_after es)
            (over_threshold t k es) other before_it)
      | inl own ↦
          let tenants =
            text_eq_sound e.tenant_id t
              (and_left (text_eq e.tenant_id t) (title_code e.title == title_code k) own) in
          let titles =
            title_ext e.title k
              (and_right (text_eq e.tenant_id t) (title_code e.title == title_code k) own) in
          let checked =
            own_check e.tenant_id e.title e.threshold e.count (alerts_after es)
              (over_threshold e.tenant_id e.title es) (mirrored es e.tenant_id e.title) in
          rw own (
            subst
              (λ x.
                Mirrors x k
                  (evaluate_check e.tenant_id e.title e.threshold e.count (alerts_after es))
                  (ltb e.threshold e.count))
              tenants
              (subst
                (λ y.
                  Mirrors e.tenant_id y
                    (evaluate_check e.tenant_id e.title e.threshold e.count (alerts_after es))
                    (ltb e.threshold e.count))
                titles checked))
    ]

-- After any history of evaluations a tenant has exactly one open alert of a check if the newest
-- evaluation of it was over the threshold, and none otherwise.
pub alerts-follow_checks :
    (es : List Evaluation) (tenant : Text) (title : Title)
    → open_count tenant title (alerts_after es) ≡ bit (over_threshold tenant title es)
unfolding Mirrors
alerts-follow_checks es tenant title = (mirrored es tenant title).0
