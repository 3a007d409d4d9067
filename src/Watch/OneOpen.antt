-- ===== src/Watch/OneOpen.antt =====
-- A history of evaluations, and what one of them does to the alerts of a key.
use stablecoin_treasury.Prelude.{
  ℕ, ◌+◌, ◌≡◌, refl, inl, inr, Bool, true, false, ◌&&◌, List, [], ◌∷◌, map, ltb, ◌==◌,
  if◌then◌else◌, Bool-cases, find, ap, ==_refl, if-keeps, subst, arith, and_left, and_right,
}
use stablecoin_treasury.Prelude.Strings.{Text, text_eq, text_eq_refl, text_eq_sound}
use stablecoin_treasury.Watch.Alerts.{
  Title, title_code, Alert, has_key, open_alert, close, evaluate_check, new_alert,
}

-- An evaluation of a check.
pub record Evaluation : Type 0 where
  pub tenant_id : Text
  pub title : Title
  pub threshold : ℕ
  pub count : ℕ

-- The alerts after a history of evaluations, whose newest stands first.
unfoldable pub alerts_after : List Evaluation → List Alert
unfolding evaluate_check
alerts_after [] = []
alerts_after (e ∷ es) = evaluate_check e.tenant_id e.title e.threshold e.count (alerts_after es)

-- How many alerts of a title a tenant has open.
unfoldable pub open_count : Text → Title → List Alert → ℕ
unfolding has_key
open_count tenant title [] = 0
open_count tenant title (a ∷ as_left) =
    (if has_key tenant title a && a.is_open then 1 else 0) + open_count tenant title as_left

-- Whether the newest evaluation of a tenant's check was over its threshold.
unfoldable pub over_threshold : Text → Title → List Evaluation → Bool
unfolding text_eq
over_threshold tenant title [] = false
over_threshold tenant title (e ∷ es) =
    let rest = over_threshold tenant title es in
    if text_eq e.tenant_id tenant && title_code e.title == title_code title
    then ltb e.threshold e.count
    else rest

abbrev pub bit : Bool → ℕ
bit true = 1
bit false = 0

-- The alerts have at most one open alert of the key, the newest, and it is open as given.
unfoldable pub Mirrors : Text → Title → List Alert → Bool → Type 0
unfolding open_count has_key
Mirrors tenant title alerts over =
    (open_count tenant title alerts ≡ bit over)
    × (open_alert (find (has_key tenant title) alerts) ≡ over)

-- Closing keeps the key of an alert.
close-key : (t t' : Text) (k k' : Title) (a : Alert) → has_key t' k' (close t k a) ≡ has_key t' k' a
unfolding close has_key
close-key t t' k k' a =
    if-keeps (λ (b : Alert). has_key t' k' b ≡ has_key t' k' a) (has_key t k a && a.is_open)
      (record a { is_open = false }) a refl refl

-- An alert of the key is closed; one of another key stays.
close-own :
    (t : Text) (k : Title) (a : Alert) → has_key t k a ≡ true → (close t k a).is_open ≡ false
unfolding close
close-own t k a own = elim (Bool-cases a.is_open) [
  | inl o ↦ rw (own, o) refl
  | inr c ↦ rw (own, c) refl
]

close-other : (t : Text) (k : Title) (a : Alert) → has_key t k a ≡ false → close t k a ≡ a
unfolding close
close-other t k a other = rw other refl

module _ (t t' : Text) (k k' : Title)
    (differ : (text_eq t t' && title_code k == title_code k') ≡ false) where
  has_key-other : (a : Alert) → has_key t' k' a ≡ true → has_key t k a ≡ false
  unfolding has_key
  has_key-other a own = elim (Bool-cases (has_key t k a)) [
    | inr other ↦ other
    | inl both ↦
        let here =
          text_eq_sound a.tenant_id t
            (and_left (text_eq a.tenant_id t) (title_code a.title == title_code k) both) in
        let there =
          text_eq_sound a.tenant_id t'
            (and_left (text_eq a.tenant_id t') (title_code a.title == title_code k') own) in
        let tenants : text_eq t t' ≡ true =
          subst (λ x. text_eq x t' ≡ true) here
            (subst (λ x. text_eq a.tenant_id x ≡ true) there (text_eq_refl a.tenant_id)) in
        let code = and_right (text_eq a.tenant_id t) (title_code a.title == title_code k) both in
        let code' = and_right (text_eq a.tenant_id t') (title_code a.title == title_code k') own in
        let titles : (title_code k == title_code k') ≡ true = ground arith in
        cc (rw (tenants, titles) at differ)
  ]

  pub closed_count :
      (alerts : List Alert) → open_count t' k' (map (close t k) alerts) ≡ open_count t' k' alerts
  unfolding open_count
  closed_count [] = refl
  closed_count (a ∷ more) =
      let rest = closed_count more in
      elim (Bool-cases (has_key t' k' a)) [
        | inr other ↦ rw (close-key t t' k k' a, other) (omega (arith, rest))
        | inl own ↦
            rw (close-other t k a (has_key-other a own))
              (ap (λ n. (if has_key t' k' a && a.is_open then 1 else 0) + n) rest)
      ]

  pub closed_newest :
      (alerts : List Alert)
      → open_alert (find (has_key t' k') (map (close t k) alerts))
        ≡ open_alert (find (has_key t' k') alerts)
  closed_newest [] = refl
  closed_newest (a ∷ more) = elim (Bool-cases (has_key t' k' a)) [
    | inr other ↦ rw (close-key t t' k k' a, other) (closed_newest more)
    | inl own ↦ rw (close-other t k a (has_key-other a own), own) refl
  ]

pub own_count :
    (t : Text) (k : Title) (alerts : List Alert) → open_count t k (map (close t k) alerts) ≡ 0
unfolding open_count
own_count t k [] = refl
own_count t k (a ∷ more) =
    let rest = own_count t k more in
    elim (Bool-cases (has_key t k a)) [
      | inr other ↦ rw (close-key t t k k a, other) (omega (arith, rest))
      | inl own ↦ rw (close-key t t k k a, own, close-own t k a own) (omega (arith, rest))
    ]

pub own_newest :
    (t : Text) (k : Title) (alerts : List Alert)
    → open_alert (find (has_key t k) (map (close t k) alerts)) ≡ false
own_newest t k [] = refl
own_newest t k (a ∷ more) = elim (Bool-cases (has_key t k a)) [
  | inr other ↦ rw (close-key t t k k a, other) (own_newest t k more)
  | inl own ↦ rw (close-key t t k k a, own) (close-own t k a own)
]

pub new_alert-key : (t : Text) (k : Title) → has_key t k (new_alert t k) ≡ true
unfolding has_key
new_alert-key t k = rw (text_eq_refl t, ==_refl (title_code k)) refl
