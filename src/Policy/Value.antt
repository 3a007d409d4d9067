-- ===== src/Policy/Value.antt =====
-- packages/shared/policy-math.mjs and services/payment-service/src/approvals.mjs. Amounts are in
-- cents, and a EUR value is in hundredths of a cent, so that the demo rates 1 and 0.92 are exact.
use Prim.Native.String.{String}
use text.Mathlib.Text.{◌==◌ as str_eq}
use stablecoin_treasury.Prelude.{ℕ, ◌*◌, Option, none, some, leb, if◌then◌else◌}

-- `ratesToEur[asset]` in hundredths, where the table has the asset.
unfoldable pub rates_to_eur : String → Option ℕ
rates_to_eur asset =
    if str_eq asset "EURC"
    then some 100
    else if str_eq asset "EURI"
    then some 100
    else if str_eq asset "N-EURC"
    then some 100
    else if str_eq asset "N-USDC"
    then some 92
    else if str_eq asset "USDC"
    then some 92
    else if str_eq asset "USDG"
    then some 92
    else none

abbrev rate_or_one : Option ℕ → ℕ
rate_or_one none = 100
rate_or_one (some r) = r

-- `valueToEur`
unfoldable pub value_to_eur : ℕ → String → ℕ
unfolding rates_to_eur
value_to_eur amount asset = amount * rate_or_one (rates_to_eur asset)

-- The tenant's policy.
pub record Policy : Type 0 where
  pub approval_threshold : ℕ
  pub second_approval_threshold : ℕ
  pub hard_transfer_limit : ℕ

-- `requiredApprovalsFor` of policy-math.mjs
unfoldable pub approvals_for_eur : ℕ → Policy → ℕ
approvals_for_eur amount_eur policy =
    if leb policy.second_approval_threshold amount_eur
    then 2
    else if leb policy.approval_threshold amount_eur
    then 1
    else 0

-- `requiredApprovalsFor` of approvals.mjs
unfoldable pub required_approvals_for : ℕ → String → Policy → ℕ
unfolding value_to_eur approvals_for_eur
required_approvals_for amount asset policy = approvals_for_eur (value_to_eur amount asset) policy
