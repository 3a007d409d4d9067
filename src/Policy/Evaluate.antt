-- ===== src/Policy/Evaluate.antt =====
-- `evaluate` and `validatePolicy` (services/policy-service/src/evaluate.mjs). A share of the
-- treasury is a fraction; `projected <= limit` is tested by cross-multiplication.
use Prim.Native.String.{String}
use text.Mathlib.Text.{◌==◌ as str_eq}
use stablecoin_treasury.Prelude.{
  ℕ, ◌+◌, ◌-◌, ◌*◌, ◌/◌, max, Bool, true, false, not, ◌&&◌, ◌||◌, Option, none, some, List, [], ◌∷◌,
  leb, ◌==◌, if◌then◌else◌, any,
}
use stablecoin_treasury.Policy.Value.{value_to_eur, Policy, approvals_for_eur}

pub data CheckStatus : Type 0 where
  clear review blocked : CheckStatus

pub data CounterpartyStatus : Type 0 where
  counterparty_approved counterparty_blocked : CounterpartyStatus
  counterparty_other : CounterpartyStatus

-- `numerator / denominator`, where the denominator is positive.
pub record Share : Type 0 where
  pub numerator : ℕ
  pub denominator : ℕ

abbrev pub share_leb : Share → Share → Bool
share_leb a b = leb (a.numerator * b.denominator) (b.numerator * a.denominator)

-- The tenant's policies; `thresholds` holds the three amounts.
pub record Policies : Type 0 where
  pub thresholds : Policy
  pub allowed_assets : List String
  pub allowed_providers : List ℕ
  pub require_screening : Bool
  pub concentration_limit : Share

-- A wallet with its balance in cents.
pub record Holding : Type 0 where
  pub asset : String
  pub balance : ℕ

-- The body of `/evaluate`; `wallets` is `none` where it is no array.
pub record Evaluation : Type 0 where
  pub asset : String
  pub amount : ℕ
  pub fee : ℕ
  pub required_approvals : ℕ
  pub balance : ℕ
  pub asset_enabled : Bool
  pub counterparty : CounterpartyStatus
  pub provider_id : ℕ
  pub provider_operational : Bool
  pub wallets : Option (List Holding)

abbrev pub clear_if : Bool → CheckStatus → CheckStatus
clear_if b otherwise = if b then clear else otherwise

abbrev pub asset_check : Evaluation → Policies → CheckStatus
asset_check e policies =
    clear_if (any (λ a. str_eq a e.asset) policies.allowed_assets && e.asset_enabled) blocked

abbrev pub provider_check : Evaluation → Policies → CheckStatus
provider_check e policies =
    if not (any (λ p. p == e.provider_id) policies.allowed_providers)
    then blocked
    else clear_if e.provider_operational review

abbrev pub balance_check : Evaluation → CheckStatus
balance_check e = clear_if (leb (e.amount + e.fee) e.balance) blocked

abbrev pub counterparty_check : CounterpartyStatus → CheckStatus
counterparty_check counterparty_approved = clear
counterparty_check counterparty_blocked = blocked
counterparty_check counterparty_other = review

abbrev pub screening_check : Evaluation → Policies → CheckStatus
screening_check e policies =
    if not policies.require_screening then clear else counterparty_check e.counterparty

abbrev pub limit_check : Evaluation → Policies → CheckStatus
limit_check e policies =
    clear_if (leb (value_to_eur e.amount e.asset) policies.thresholds.hard_transfer_limit) blocked

abbrev pub approvals_check : Evaluation → Policies → CheckStatus
approvals_check e policies =
    clear_if
      (leb (approvals_for_eur (value_to_eur e.amount e.asset) policies.thresholds)
        e.required_approvals)
      blocked

-- `valueByAsset`, as an association list.
pub record AssetValue : Type 0 where
  pub asset : String
  pub value : ℕ

abbrev pub value_at : String → List AssetValue → ℕ
value_at asset [] = 0
value_at asset (v ∷ vs) =
    let rest = value_at asset vs in if str_eq v.asset asset then v.value else rest

abbrev pub set_value : String → ℕ → List AssetValue → List AssetValue
set_value asset n [] = record { asset = asset; value = n } ∷ []
set_value asset n (v ∷ vs) =
    let rest = set_value asset n vs in
    if str_eq v.asset asset then record { asset = asset; value = n } ∷ vs else v ∷ rest

abbrev pub add_holdings : List Holding → List AssetValue → List AssetValue
add_holdings [] values = values
add_holdings (h ∷ hs) values =
    add_holdings hs
      (set_value h.asset (value_at h.asset values + value_to_eur h.balance h.asset) values)

abbrev pub total_value : List AssetValue → ℕ
total_value [] = 0
total_value (v ∷ vs) = v.value + total_value vs

abbrev max_value : List AssetValue → ℕ
max_value [] = 0
max_value (v ∷ vs) = max v.value (max_value vs)

-- `maxShare`
abbrev pub max_share : List AssetValue → ℕ → Share
max_share values total =
    if total == 0
    then record { numerator = 0; denominator = 1 }
    else record { numerator = max_value values; denominator = total }

-- `roundMoney` of a EUR value: to the cent.
abbrev pub round_value : ℕ → ℕ
round_value n = (n + 50) / 100 * 100

-- `assetConcentrationAfterPayment`: the largest share before and after.
unfoldable pub concentration : List Holding → Evaluation → Share × Share
concentration wallets e =
    let outgoing = value_to_eur (e.amount + e.fee) e.asset in
    let values = add_holdings wallets [] in
    let after = set_value e.asset (value_at e.asset values - outgoing) values in
    (
      max_share values (total_value values),
      max_share after (round_value (total_value values - outgoing)),
    )

abbrev pub no_share : Share
no_share = record { numerator = 0; denominator = 1 }

abbrev concentration_of : Option (List Holding) → Evaluation → Share × Share
concentration_of none e = (no_share, no_share)
concentration_of (some wallets) e = concentration wallets e

abbrev pub concentration_check : Evaluation → Policies → CheckStatus
concentration_check e policies =
    let (current, projected) = concentration_of e.wallets e in
    clear_if (share_leb projected policies.concentration_limit || share_leb projected current)
      review

-- The checks, in the order of the list.
unfoldable pub checks : Evaluation → Policies → List CheckStatus
checks e policies =
    asset_check e policies
    ∷ provider_check e policies
    ∷ balance_check e
    ∷ screening_check e policies
    ∷ limit_check e policies
    ∷ approvals_check e policies
    ∷ concentration_check e policies
    ∷ []

abbrev pub is_blocked : CheckStatus → Bool
is_blocked blocked = true
is_blocked review = false
is_blocked clear = false

abbrev pub is_review : CheckStatus → Bool
is_review review = true
is_review blocked = false
is_review clear = false

unfoldable pub decide : List CheckStatus → CheckStatus
decide statuses =
    if any is_blocked statuses then blocked else if any is_review statuses then review else clear

-- `evaluate`
unfoldable pub evaluate : Evaluation → Policies → CheckStatus
evaluate e policies = decide (checks e policies)
