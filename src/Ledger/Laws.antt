-- ===== src/Ledger/Laws.antt =====
-- The debit route keeps the books balanced and no wallet is overdrawn; a retry posts nothing.
use stablecoin_treasury.Prelude.{
  ℕ, ◌+◌, ◌≤◌, ◌≡◌, refl, ap, subst, ◌⊎◌, inl, inr, Bool, true, false, Option, some, ◌++◌, arith,
  Bool-cases,
}
use stablecoin_treasury.Prelude.Int.{pos, ltb_ℤ, ◌-ℤ◌}
use stablecoin_treasury.Ledger.Types.{
  Owner, wallet, fees, settlement_clearing, Account, account_eq, Wallet, Ledger, debits, credits,
}
use stablecoin_treasury.Ledger.Debit.{
  DebitRequest, debit_entries, debit_wallet, debit_route, destination_wallet, wallet_account,
  has_transaction, post_transaction, wallet_balance,
}
use stablecoin_treasury.Ledger.Route.{debit_route-preserves}
use stablecoin_treasury.Ledger.Sums.{
  all_debits, all_credits, account_eq→≡, debit_entries-balanced, debits-posted, credits-posted_ge,
}

abbrev pub IsBalanced : Ledger → Type 0
IsBalanced l = all_debits l.entries ≡ all_credits l.entries

abbrev pub is_wallet_owner : Owner → Bool
is_wallet_owner (wallet _) = true
is_wallet_owner fees = false
is_wallet_owner settlement_clearing = false

-- No wallet account has been debited more than it was credited.
abbrev pub IsSolvent : Ledger → Type 0
IsSolvent l =
    (a : Account) → is_wallet_owner a.owner ≡ true → debits a l.entries ≤ credits a l.entries

-- The balance test, in sums.
balance_covers : (c d t : ℕ) → ltb_ℤ (pos c -ℤ pos d) (pos t) ≡ false → t + d ≤ c
unfolding ◌-ℤ◌
balance_covers c d t h = ground arith

-- What a debit comes to: nothing, or new entries that the balance covers.
data Debited (tenant key principal fee : ℕ) (request : DebitRequest) (source : Wallet)
    (l r : Ledger) : Type 0 where
  unchanged : r ≡ l → Debited tenant key principal fee request source l r
  posted :
      (destination : Option Wallet)
      → destination ≡ destination_wallet request.destination_wallet_id tenant source l.wallets
      → has_transaction tenant key l.transactions ≡ false
      → has_transaction tenant key r.transactions ≡ true
      → r.wallets ≡ l.wallets
      → r.entries ≡ debit_entries tenant source destination principal fee ++ l.entries
      → principal + fee + debits (wallet_account tenant source) l.entries
        ≤ credits (wallet_account tenant source) l.entries
      → Debited tenant key principal fee request source l r

debit_wallet-Debited :
    (tenant key principal fee : ℕ) (request : DebitRequest) (source : Wallet) (l : Ledger)
    → Debited tenant key principal fee request source l
        (debit_wallet tenant key request source principal fee l).1
unfolding debit_wallet wallet_balance post_transaction
debit_wallet-Debited tenant key principal fee request source l =
    elim (Bool-cases (has_transaction tenant key l.transactions)) [
      | inl again ↦ rw again (unchanged refl)
      | inr new ↦ elim (Bool-cases source.is_active) [
        | inr inactive ↦ rw (new, inactive) (unchanged refl)
        | inl active ↦
            elim (Bool-cases
              (ltb_ℤ (wallet_balance (wallet_account tenant source) l) (pos (principal + fee)))) [
                | inl short ↦ rw (new, active, short) (unchanged refl)
                | inr covered ↦
                    rw (new, active, covered)
                      (posted _ refl new (ground arith) refl refl (balance_covers _ _ _ covered))
              ]
      ]
    ]

Debited-IsBalanced :
    (tenant key principal fee : ℕ) (request : DebitRequest) (source : Wallet) (l r : Ledger)
    → IsBalanced l
    → Debited tenant key principal fee request source l r
    → IsBalanced r
Debited-IsBalanced tenant key principal fee request source l r h (unchanged e) = rw e h
Debited-IsBalanced tenant key principal fee request source l r h (posted d _ _ _ _ e _) =
    let sums = debit_entries-balanced tenant source d principal fee l.entries in
    rw (e, sums.0, sums.1, h) refl

Debited-IsSolvent :
    (tenant key principal fee : ℕ) (request : DebitRequest) (source : Wallet) (l r : Ledger)
    → IsSolvent l
    → Debited tenant key principal fee request source l r
    → IsSolvent r
Debited-IsSolvent tenant key principal fee request source l r h (unchanged e) a w = rw e (h a w)
Debited-IsSolvent tenant key principal fee request source l r h (posted d _ _ _ _ e covered) a w =
    let more = credits-posted_ge tenant source d principal fee l.entries a in
    let before = h a w in
    elim (Bool-cases (account_eq (wallet_account tenant source) a)) [
      | inl same ↦
          rw (e, debits-posted tenant source d principal fee l.entries a, same)
            (covered_at a (account_eq→≡ _ _ same) more)
      | inr other ↦
          rw (e, debits-posted tenant source d principal fee l.entries a, other)
            (omega (arith, before, more))
    ]
  where
    covered_at :
        (a : Account)
        → wallet_account tenant source ≡ a
        → credits a l.entries ≤ credits a (debit_entries tenant source d principal fee ++ l.entries)
        → principal + fee + debits a l.entries
          ≤ credits a (debit_entries tenant source d principal fee ++ l.entries)
    covered_at a same more =
        let at =
          subst (λ b. principal + fee + debits b l.entries ≤ credits b l.entries) same covered in
        omega (arith, at, more)

-- Every debit request, whatever it asks and however it ends, keeps the books balanced (the
-- debits of all accounts come to the credits of all accounts) and every wallet solvent (no
-- wallet account is debited more than it is credited).
pub debit_route_sound :
    (id tenant : ℕ) (request : DebitRequest) (l : Ledger)
    → IsBalanced l
    → IsSolvent l
    → IsBalanced (debit_route id tenant request l).1 × IsSolvent (debit_route id tenant request l).1
debit_route_sound id tenant request l balanced solvent =
    debit_route-preserves (λ r. IsBalanced r × IsSolvent r) id tenant request l (balanced, solvent)
      (λ key principal fee w _ _.
        let done = debit_wallet-Debited tenant key principal fee request w l in
        (
          Debited-IsBalanced tenant key principal fee request w l _ balanced done,
          Debited-IsSolvent tenant key principal fee request w l _ solvent done,
        ))

-- A request with a key leaves the ledger as it was, or with a transaction of that key.
debit_wallet-again :
    (tenant key principal fee : ℕ) (request : DebitRequest) (w : Wallet) (l : Ledger)
    → has_transaction tenant key l.transactions ≡ true
    → (debit_wallet tenant key request w principal fee l).1 ≡ l
unfolding debit_wallet
debit_wallet-again tenant key principal fee request w l h = rw h refl

debit_route-again :
    (id tenant key : ℕ) (request : DebitRequest) (l : Ledger)
    → request.idempotency_key ≡ some key
    → has_transaction tenant key l.transactions ≡ true
    → (debit_route id tenant request l).1 ≡ l
debit_route-again id tenant key request l k h =
    debit_route-preserves (λ r. r ≡ l) id tenant request l refl
      (λ other principal fee w k' _.
        debit_wallet-again tenant other principal fee request w l
          (subst (λ o. has_transaction tenant o l.transactions ≡ true) (key_same other k') h))
  where
    key_same : (other : ℕ) → request.idempotency_key ≡ some other → key ≡ other
    key_same other k' = cc

-- Sending a debit request once more posts nothing, on whatever wallet and tenant it is made:
-- the ledger after two identical requests is the ledger after one.
pub debit_route-idempotent :
    (id tenant : ℕ) (request : DebitRequest) (l : Ledger)
    → (debit_route id tenant request (debit_route id tenant request l).1).1
      ≡ (debit_route id tenant request l).1
debit_route-idempotent id tenant request l =
    elim (debit_route-preserves Repeated id tenant request l (inl refl) (λ key principal fee w k _.
      elim (debit_wallet-Debited tenant key principal fee request w l) [
        | unchanged e ↦ inl e
        | posted _ _ _ there _ _ _ ↦ inr (key, k, there)
      ])) [
        | inl same ↦ ap (λ r. (debit_route id tenant request r).1) same
        | inr (key, k, there) ↦ debit_route-again id tenant key request _ k there
      ]
  where
    Repeated : Ledger → Type 0
    Repeated r =
        (r ≡ l)
        ⊎ ((key : ℕ) × (request.idempotency_key ≡ some key)
            × (has_transaction tenant key r.transactions ≡ true))
