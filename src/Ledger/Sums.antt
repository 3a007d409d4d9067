-- ===== src/Ledger/Sums.antt =====
-- Sums of entries, and what the entries of one debit add to them.
use stablecoin_treasury.Prelude.{
  ℕ, ◌+◌, ◌≤◌, ◌≡◌, inl, inr, true, Option, List, [], ◌∷◌, ◌++◌, ltb, arith, Bool-cases,
  if◌then◌else◌,
}
use stablecoin_treasury.Ledger.Types.{
  Account, account_eq, debit, credit, Entry, Wallet, debits, credits,
}
use stablecoin_treasury.Ledger.Debit.{debit_entries, wallet_account}

-- The sums of one side over all accounts.
unfoldable pub all_debits : List Entry → ℕ
all_debits [] = 0
all_debits (e ∷ es) =
    let rest = all_debits es in elim (e.direction) [ debit ↦ e.amount + rest | credit ↦ rest ]

unfoldable pub all_credits : List Entry → ℕ
all_credits [] = 0
all_credits (e ∷ es) =
    let rest = all_credits es in elim (e.direction) [ debit ↦ rest | credit ↦ e.amount + rest ]

pub account_eq→≡ : (a b : Account) → account_eq a b ≡ true → a ≡ b
account_eq→≡ a b h = ground arith

pub account_eq_refl : (a : Account) → account_eq a a ≡ true
account_eq_refl a = ground arith

module _ (tenant : ℕ) (source : Wallet) (destination : Option Wallet) (principal fee : ℕ)
    (es : List Entry) where
  abbrev posted : List Entry
  posted = debit_entries tenant source destination principal fee ++ es

  -- The entries of a debit add as much on one side as on the other.
  pub debit_entries-balanced :
      (all_debits posted ≡ principal + fee + all_debits es)
      × (all_credits posted ≡ principal + fee + all_credits es)
  unfolding all_debits all_credits
  debit_entries-balanced = ground arith

  -- Only the source account is debited.
  pub debits-posted :
      (a : Account)
      → debits a posted ≡ (
          if account_eq (wallet_account tenant source) a
          then principal + fee + debits a es
          else debits a es)
  unfolding debits
  debits-posted a = elim (Bool-cases (ltb 0 fee)) [
    | inl more ↦ rw more
    | inr none_more ↦ rw none_more
  ]

  pub credits-posted_ge : (a : Account) → credits a es ≤ credits a posted
  unfolding credits
  credits-posted_ge a = elim (Bool-cases (ltb 0 fee)) [
    | inl more ↦ rw more (ground arith)
    | inr none_more ↦ rw none_more (ground arith)
  ]
