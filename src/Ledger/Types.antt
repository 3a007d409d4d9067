-- ===== src/Ledger/Types.antt =====
-- The ledger tables. A ledger account has a generated id in the database, one for each owner and
-- asset of a tenant (a unique index); here the owner and the asset are the id.
use stablecoin_treasury.Prelude.{
  ℕ, ◌+◌, Bool, true, false, ◌&&◌, List, [], ◌∷◌, ◌==◌, if◌then◌else◌, Option,
}

pub data Owner : Type 0 where
  wallet : ℕ → Owner
  fees settlement_clearing : Owner

abbrev owner_eq : Owner → Owner → Bool
owner_eq (wallet a) (wallet b) = a == b
owner_eq fees fees = true
owner_eq settlement_clearing settlement_clearing = true
owner_eq _ _ = false

pub record Account : Type 0 where
  pub tenant_id : ℕ
  pub owner : Owner
  pub asset_id : ℕ

abbrev pub account_eq : Account → Account → Bool
account_eq a b =
    a.tenant_id == b.tenant_id && (owner_eq a.owner b.owner && a.asset_id == b.asset_id)

pub data Direction : Type 0 where
  debit credit : Direction

-- A row of wallet.ledger_entries, in cents.
pub record Entry : Type 0 where
  pub account : Account
  pub direction : Direction
  pub amount : ℕ

-- A row of wallet.ledger_transactions.
pub record Transaction : Type 0 where
  pub tenant_id : ℕ
  pub idempotency_key : ℕ
  pub payment_id : Option ℕ

pub record Wallet : Type 0 where
  pub id : ℕ
  pub tenant_id : ℕ
  pub asset_id : ℕ
  pub is_active : Bool

pub record Ledger : Type 0 where
  pub wallets : List Wallet
  pub accounts : List Account
  pub transactions : List Transaction
  pub entries : List Entry

-- The sums of one side of an account's entries.
unfoldable pub debits : Account → List Entry → ℕ
debits a [] = 0
debits a (e ∷ es) =
    let rest = debits a es in
    elim (e.direction) [
      | debit ↦ if account_eq e.account a then e.amount + rest else rest
      | credit ↦ rest
    ]

unfoldable pub credits : Account → List Entry → ℕ
credits a [] = 0
credits a (e ∷ es) =
    let rest = credits a es in
    elim (e.direction) [
      | debit ↦ rest
      | credit ↦ if account_eq e.account a then e.amount + rest else rest
    ]

pub data DebitError : Type 0 where
  idempotency_required invalid_amount wallet_not_found wallet_inactive : DebitError
  insufficient_balance : DebitError
