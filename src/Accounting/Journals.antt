-- ===== src/Accounting/Journals.antt =====
-- `createPaymentJournals` and `assertBalanced`. Ids and dates of the entries are left out.
use Prim.Native.String.{String}
use text.Mathlib.Text.{◌==◌ as str_eq}
use stablecoin_treasury.Prelude.{ℕ, not, ◌||◌, Option, none, some, List, [], ◌∷◌, if◌then◌else◌}
use stablecoin_treasury.Prelude.Int.{ℤ, pos, ◌+ℤ◌, ltb_ℤ}
use stablecoin_treasury.Prelude.Outcome.{Outcome, ok, err, throw_if}
use stablecoin_treasury.Money.Convert.{Value, parse_money_input, absent, finite}

pub data JournalAccount : Type 0 where
  stablecoin_cash_equivalent intercompany_receivable : JournalAccount
  supplier_payable network_and_provider_fees : JournalAccount

pub record JournalEntry : Type 0 where
  pub entity_id : ℕ
  pub payment_id : ℕ
  pub account : JournalAccount
  pub debit : ℤ
  pub credit : ℤ
  pub currency : String

-- The payment of the request body.
pub record JournalPayment : Type 0 where
  pub id : ℕ
  pub type : String
  pub asset : String
  pub amount : Value
  pub fee : Value

pub data JournalError : Type 0 where
  invalid_journal_amount unbalanced_journal : JournalError

-- `asset?.currency || (payment.asset === "USDC" ? "USD" : "EUR")`
abbrev pub currency_of : Option String → String → String
currency_of (some currency) asset = currency
currency_of none asset = if str_eq asset "USDC" then "USD" else "EUR"

-- `payment.fee || 0`, of JSON, where a number that is not finite stands for other values.
abbrev pub fee_value : Value → Value
fee_value absent = finite (pos 0)
fee_value v = v

abbrev pub payable_account : String → JournalAccount
payable_account type =
    if str_eq type "Intra-group" then intercompany_receivable else supplier_payable

abbrev pub journal_entries : JournalPayment → ℕ → Option String → ℤ → ℤ → List JournalEntry
journal_entries payment entity currency amount fee =
    record {
      entity_id = entity;
      payment_id = payment.id;
      account = stablecoin_cash_equivalent;
      debit = pos 0;
      credit = amount +ℤ fee;
      currency = currency_of currency payment.asset;
    }
    ∷ record {
      entity_id = entity;
      payment_id = payment.id;
      account = payable_account payment.type;
      debit = amount;
      credit = pos 0;
      currency = currency_of currency payment.asset;
    }
    ∷ record {
      entity_id = entity;
      payment_id = payment.id;
      account = network_and_provider_fees;
      debit = fee;
      credit = pos 0;
      currency = currency_of currency payment.asset;
    }
    ∷ []

abbrev pub journals_of :
    JournalPayment
    → ℕ
    → Option String
    → Option ℤ
    → Option ℤ
    → Outcome JournalError (List JournalEntry)
journals_of payment entity currency (some amount) (some fee) =
    if not (ltb_ℤ (pos 0) amount) || ltb_ℤ fee (pos 0)
    then err invalid_journal_amount
    else ok (journal_entries payment entity currency amount fee)
journals_of payment entity currency (some amount) none = err invalid_journal_amount
journals_of payment entity currency none _ = err invalid_journal_amount

-- `createPaymentJournals`
unfoldable pub create_payment_journals :
    JournalPayment → ℕ → Option String → Outcome JournalError (List JournalEntry)
create_payment_journals payment entity currency =
    journals_of payment entity currency (parse_money_input payment.amount)
      (parse_money_input (fee_value payment.fee))

unfoldable pub sum_of : (JournalEntry → ℤ) → List JournalEntry → ℤ
sum_of side [] = pos 0
sum_of side (e ∷ es) = side e +ℤ sum_of side es

-- `assertBalanced`
unfoldable pub assert_balanced : List JournalEntry → Outcome JournalError (Unit {0})
unfolding sum_of
assert_balanced entries =
    let debits = sum_of (λ e. e.debit) entries in
    let credits = sum_of (λ e. e.credit) entries in
    throw_if (ltb_ℤ debits credits || ltb_ℤ credits debits) unbalanced_journal
