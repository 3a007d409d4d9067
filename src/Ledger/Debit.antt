-- ===== src/Ledger/Debit.antt =====
-- `POST /wallets/:id/debit` and the posting of a transaction.
use stablecoin_treasury.Prelude.{
  ℕ, ◌+◌, Bool, true, false, not, ◌&&◌, Option, none, some, List, [], ◌∷◌, ◌++◌, ◌==◌, ltb,
  if◌then◌else◌, find, any,
}
use stablecoin_treasury.Prelude.Int.{ℤ, pos, negsuc, ltb_ℤ, ◌-ℤ◌}
use stablecoin_treasury.Prelude.Outcome.{Outcome, ok, err}
use stablecoin_treasury.Money.Convert.{Value, absent, finite, parse_money_input}
use stablecoin_treasury.Ledger.Types.{
  Owner, wallet, fees, settlement_clearing, Account, account_eq, debit, credit, Entry, Transaction,
  Wallet, Ledger, debits, credits, DebitError, idempotency_required, invalid_amount,
  wallet_not_found, wallet_inactive, insufficient_balance,
}

-- `getOrCreateWalletAccount`, `getOrCreateSharedAccount`: INSERT … ON CONFLICT.
unfoldable pub get_or_create : Account → List Account → List Account
get_or_create a accounts = if any (account_eq a) accounts then accounts else a ∷ accounts

-- `getWalletBalance`: the view wallet.wallet_balances, credits less debits.
unfoldable pub wallet_balance : Account → Ledger → ℤ
wallet_balance a l = pos (credits a l.entries) -ℤ pos (debits a l.entries)

abbrev pub has_transaction : ℕ → ℕ → List Transaction → Bool
has_transaction tenant key = any (λ t. t.tenant_id == tenant && t.idempotency_key == key)

-- `postTransaction`, with `alreadyPosted`.
unfoldable pub post_transaction : ℕ → ℕ → Option ℕ → List Entry → Ledger → Bool × Ledger
post_transaction tenant key payment_id entries l =
    if has_transaction tenant key l.transactions then (true, l) else (
      false,
      record l {
        transactions =
            record { tenant_id = tenant; idempotency_key = key; payment_id = payment_id }
            ∷ l.transactions;
        entries = entries ++ l.entries;
      },
    )

-- The request body; `principal` stands for `body.principal ?? body.amount`.
pub record DebitRequest : Type 0 where
  pub idempotency_key : Option ℕ
  pub principal : Value
  pub fee : Value
  pub destination_wallet_id : Option ℕ
  pub payment_id : Option ℕ

pub record DebitReply : Type 0 where
  pub amount : ℕ
  pub balance : ℤ

abbrev pub or_zero : Value → Value
or_zero absent = finite (pos 0)
or_zero v = v

-- The parsed principal, which is positive.
abbrev pub principal_of : Option ℤ → Option ℕ
principal_of none = none
principal_of (some (pos n)) = if ltb 0 n then some n else none
principal_of (some (negsuc n)) = none

-- The parsed fee, which is not negative.
abbrev pub fee_of : Option ℤ → Option ℕ
fee_of none = none
fee_of (some (pos n)) = some n
fee_of (some (negsuc n)) = none

abbrev pub is_wallet : ℕ → ℕ → Wallet → Bool
is_wallet id tenant w = w.id == id && w.tenant_id == tenant

-- The destination, if it is another active wallet of the tenant.
unfoldable pub destination_wallet : Option ℕ → ℕ → Wallet → List Wallet → Option Wallet
destination_wallet none tenant source wallets = none
destination_wallet (some id) tenant source wallets =
    if id == source.id then none else find (λ w. is_wallet id tenant w && w.is_active) wallets

abbrev pub wallet_account : ℕ → Wallet → Account
wallet_account tenant w = record { tenant_id = tenant; owner = wallet w.id; asset_id = w.asset_id }

abbrev pub shared_account : ℕ → Owner → ℕ → Account
shared_account tenant owner asset = record { tenant_id = tenant; owner = owner; asset_id = asset }

-- The account that the principal goes to.
abbrev pub principal_account : ℕ → Wallet → Option Wallet → Account
principal_account tenant source none = shared_account tenant settlement_clearing source.asset_id
principal_account tenant source (some w) =
    if w.asset_id == source.asset_id
    then wallet_account tenant w
    else shared_account tenant settlement_clearing source.asset_id

abbrev pub fee_entries : Account → ℕ → List Entry
fee_entries a fee =
    if ltb 0 fee then record { account = a; direction = credit; amount = fee } ∷ [] else []

-- The entries of a debit, and the accounts that they are on.
abbrev pub debit_entries : ℕ → Wallet → Option Wallet → ℕ → ℕ → List Entry
debit_entries tenant source destination principal fee =
    record { account = wallet_account tenant source; direction = debit; amount = principal + fee }
    ∷ record {
      account = principal_account tenant source destination;
      direction = credit;
      amount = principal;
    }
    ∷ fee_entries (shared_account tenant fees source.asset_id) fee

abbrev pub create_accounts : ℕ → Wallet → Option Wallet → ℕ → List Account → List Account
create_accounts tenant source destination fee accounts =
    let two =
      get_or_create (principal_account tenant source destination)
        (get_or_create (wallet_account tenant source) accounts) in
    if ltb 0 fee then get_or_create (shared_account tenant fees source.asset_id) two else two

-- The transaction of the route, for a wallet that is found and locked.
unfoldable pub debit_wallet :
    ℕ → ℕ → DebitRequest → Wallet → ℕ → ℕ → Ledger → Outcome DebitError DebitReply × Ledger
debit_wallet tenant key request source principal fee l =
    let total = principal + fee in
    let account = wallet_account tenant source in
    if has_transaction tenant key l.transactions
    then (ok (record { amount = total; balance = wallet_balance account l }), l)
    else if not source.is_active
    then (err wallet_inactive, l)
    else if ltb_ℤ (wallet_balance account l) (pos total)
    then (err insufficient_balance, l)
    else let destination =
        destination_wallet request.destination_wallet_id tenant source l.wallets in
      let opened = record l {
        accounts = create_accounts tenant source destination fee l.accounts;
      } in
      let (_, posted) =
        post_transaction tenant key request.payment_id
          (debit_entries tenant source destination principal fee) opened in
      (ok (record { amount = total; balance = wallet_balance account posted }), posted)

abbrev pub debit_found :
    ℕ → ℕ → DebitRequest → ℕ → ℕ → Ledger → Option Wallet → Outcome DebitError DebitReply × Ledger
debit_found tenant key request principal fee l none = (err wallet_not_found, l)
debit_found tenant key request principal fee l (some w) =
    debit_wallet tenant key request w principal fee l

abbrev pub debit_amounts :
    ℕ → ℕ → ℕ → DebitRequest → Ledger → Option ℕ → Option ℕ → Outcome DebitError DebitReply × Ledger
debit_amounts id tenant key request l none _ = (err invalid_amount, l)
debit_amounts id tenant key request l (some principal) none = (err invalid_amount, l)
debit_amounts id tenant key request l (some principal) (some fee) =
    debit_found tenant key request principal fee l (find (is_wallet id tenant) l.wallets)

-- The route.
abbrev pub debit_keyed :
    ℕ → ℕ → DebitRequest → Ledger → Option ℕ → Outcome DebitError DebitReply × Ledger
debit_keyed id tenant request l none = (err idempotency_required, l)
debit_keyed id tenant request l (some key) =
    debit_amounts id tenant key request l
      (principal_of (parse_money_input (or_zero request.principal)))
      (fee_of (parse_money_input (or_zero request.fee)))

unfoldable pub debit_route : ℕ → ℕ → DebitRequest → Ledger → Outcome DebitError DebitReply × Ledger
debit_route id tenant request l = debit_keyed id tenant request l request.idempotency_key
