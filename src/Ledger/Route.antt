-- ===== src/Ledger/Route.antt =====
-- What the debit route can come to.
use stablecoin_treasury.Prelude.Outcome.{Outcome, ok, err}
use stablecoin_treasury.Prelude.{
  ℕ, ◌+◌, ◌≡◌, refl, inl, inr, true, Option, none, some, arith, Bool-cases, find, subst,
}
use stablecoin_treasury.Prelude.Int.{pos, ltb_ℤ}
use stablecoin_treasury.Money.Convert.{parse_money_input}
use stablecoin_treasury.Ledger.Types.{
  Wallet, Ledger, DebitError, idempotency_required, invalid_amount, wallet_not_found,
}
use stablecoin_treasury.Ledger.Debit.{
  DebitRequest, debit_wallet, debit_route, debit_keyed, debit_amounts, debit_found, wallet_account,
  is_wallet, has_transaction, post_transaction, principal_of, fee_of, or_zero, wallet_balance,
  DebitReply,
}

-- The route refuses, or it runs the transaction for a wallet that is there.
module _ (J : Outcome DebitError DebitReply × Ledger → Type 0) (id tenant : ℕ)
    (request : DebitRequest) (l : Ledger) (refuses : (e : DebitError) → J (err e, l))
    (runs : (key principal fee : ℕ) (w : Wallet)
      → request.idempotency_key ≡ some key
      → find (is_wallet id tenant) l.wallets ≡ some w
      → J (debit_wallet tenant key request w principal fee l)) where
  found-J :
      (key principal fee : ℕ) (o : Option Wallet)
      → request.idempotency_key ≡ some key
      → find (is_wallet id tenant) l.wallets ≡ o
      → J (debit_found tenant key request principal fee l o)
  found-J key principal fee none k e = refuses wallet_not_found
  found-J key principal fee (some w) k e = runs key principal fee w k e

  amounts-J :
      (key : ℕ) (p f : Option ℕ)
      → request.idempotency_key ≡ some key
      → J (debit_amounts id tenant key request l p f)
  amounts-J key none f k = refuses invalid_amount
  amounts-J key (some p) none k = refuses invalid_amount
  amounts-J key (some p) (some f) k = found-J key p f (find (is_wallet id tenant) l.wallets) k refl

  keyed-J : (o : Option ℕ) → request.idempotency_key ≡ o → J (debit_keyed id tenant request l o)
  keyed-J none k = refuses idempotency_required
  keyed-J (some key) k =
      amounts-J key (principal_of (parse_money_input (or_zero request.principal)))
        (fee_of (parse_money_input (or_zero request.fee))) k

  pub debit_route-ends : J (debit_route id tenant request l)
  unfolding debit_route
  debit_route-ends = keyed-J request.idempotency_key refl

-- What the transaction keeps, the route keeps.
pub debit_route-preserves :
    (I : Ledger → Type 0) (id tenant : ℕ) (request : DebitRequest) (l : Ledger)
    → I l
    → ((key principal fee : ℕ) (w : Wallet)
        → request.idempotency_key ≡ some key
        → find (is_wallet id tenant) l.wallets ≡ some w
        → I (debit_wallet tenant key request w principal fee l).1)
    → I (debit_route id tenant request l).1
debit_route-preserves I id tenant request l h =
    debit_route-ends (λ r. I r.1) id tenant request l (λ _. h)

-- A debit with another reply than a refusal leaves a transaction with its key.
IsReplied : ℕ → ℕ → Outcome DebitError DebitReply × Ledger → Type 0
IsReplied tenant key (ok _, l) = has_transaction tenant key l.transactions ≡ true
IsReplied tenant key (err _, l) = Unit

debit_wallet-IsReplied :
    (tenant key principal fee : ℕ) (request : DebitRequest) (source : Wallet) (l : Ledger)
    → IsReplied tenant key (debit_wallet tenant key request source principal fee l)
unfolding debit_wallet post_transaction IsReplied
debit_wallet-IsReplied tenant key principal fee request source l =
    elim (Bool-cases (has_transaction tenant key l.transactions)) [
      | inl again ↦ simp again refl
      | inr new ↦ elim (Bool-cases source.is_active) [
        | inr inactive ↦ simp (new, inactive) tt
        | inl active ↦
            elim (Bool-cases
              (ltb_ℤ (wallet_balance (wallet_account tenant source) l) (pos (principal + fee)))) [
                | inl short ↦ simp (new, active, short) tt
                | inr covered ↦ simp (new, active, covered) (ground arith)
              ]
      ]
    ]

-- A route that replies leaves a transaction with the request's key.
pub debit_route-replied :
    (id tenant key : ℕ) (request : DebitRequest) (l : Ledger) (reply : DebitReply)
    → request.idempotency_key ≡ some key
    → (debit_route id tenant request l).0 ≡ ok reply
    → has_transaction tenant key (debit_route id tenant request l).1.transactions ≡ true
unfolding IsReplied
debit_route-replied id tenant key request l reply k e =
    replied (debit_route id tenant request l)
      (debit_route-ends (IsReplied tenant key) id tenant request l (λ _. tt)
        (λ other principal fee w k' _.
          subst (λ o. IsReplied tenant o (debit_wallet tenant other request w principal fee l))
            (same_key other k') (debit_wallet-IsReplied tenant other principal fee request w l)))
      e
  where
    same_key : (other : ℕ) → request.idempotency_key ≡ some other → other ≡ key
    same_key other k' = cc

    replied :
        (r : Outcome DebitError DebitReply × Ledger)
        → IsReplied tenant key r
        → r.0 ≡ ok reply
        → has_transaction tenant key r.1.transactions ≡ true
    replied (ok _, m) h e' = h
    replied (err _, m) h e' = cc

debit_wallet-keeps :
    (tenant key principal fee : ℕ) (request : DebitRequest) (source : Wallet) (l : Ledger) (t k : ℕ)
    → has_transaction t k l.transactions ≡ true
    → has_transaction t k (debit_wallet tenant key request source principal fee l).1.transactions
      ≡ true
unfolding debit_wallet post_transaction
debit_wallet-keeps tenant key principal fee request source l t k h =
    elim (Bool-cases (has_transaction tenant key l.transactions)) [
      | inl again ↦ simp again h
      | inr new ↦ elim (Bool-cases source.is_active) [
        | inr inactive ↦ simp (new, inactive) h
        | inl active ↦
            elim (Bool-cases
              (ltb_ℤ (wallet_balance (wallet_account tenant source) l) (pos (principal + fee)))) [
                | inl short ↦ simp (new, active, short) h
                | inr covered ↦ simp (new, active, covered) (ground (arith, h))
              ]
      ]
    ]

-- No route takes a transaction away.
pub debit_route-keeps :
    (id tenant : ℕ) (request : DebitRequest) (l : Ledger) (t key : ℕ)
    → has_transaction t key l.transactions ≡ true
    → has_transaction t key (debit_route id tenant request l).1.transactions ≡ true
debit_route-keeps id tenant request l t key h =
    debit_route-preserves (λ r. has_transaction t key r.transactions ≡ true) id tenant request l h
      (λ key' principal fee w _ _. debit_wallet-keeps tenant key' principal fee request w l t key h)
