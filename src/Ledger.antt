-- ===== src/Ledger.antt =====
-- apps/api/src/modules/ledger/domain/ledger.rules.ts: the lines of a double-entry transaction and
-- the check that they balance. A `bigint` is an integer.
mod Tests
pub mod Balance
pub mod Settlement
pub mod Posting
use Prim.Native.String.{String, ◌++◌ as ◌+++◌}
use tamam.Prelude.{◌&&◌, not, ltb, ◌||◌, none, Bool, some, Option, List, [], ◌∷◌}
use tamam.Prelude.Int.{pos, leb_ℤ, ltb_ℤ, ◌+ℤ◌, ℤ}
use tamam.Prelude.Lists.{length}
use tamam.Shared.Enums.{
  platform_payables, platform_refund_expense, platform_promo_expense, platform_gateway_clearing,
  platform_cash_clearing, credit, platform_revenue, partner_wallet, debit, customer_wallet,
  LedgerEntryDirection, LedgerAccountType,
}
use tamam.Shared.Errors.{◌>>=◌, validation, throw_if, ◌>>◌, ok, Result}
use tamam.Shared.Text.{has_text}

-- An entry: `account_code` or `wallet_id`, a direction, and the amount in minor units.
pub record LedgerLine : Type 0 where
  pub account_code : Option String
  pub wallet_id : Option String
  pub direction : LedgerEntryDirection
  pub amount_minor : ℤ

-- The text of an account type.
abbrev pub account_type_name : LedgerAccountType → String
account_type_name customer_wallet = "CUSTOMER_WALLET"
account_type_name partner_wallet = "PARTNER_WALLET"
account_type_name platform_revenue = "PLATFORM_REVENUE"
account_type_name platform_cash_clearing = "PLATFORM_CASH_CLEARING"
account_type_name platform_gateway_clearing = "PLATFORM_GATEWAY_CLEARING"
account_type_name platform_promo_expense = "PLATFORM_PROMO_EXPENSE"
account_type_name platform_refund_expense = "PLATFORM_REFUND_EXPENSE"
account_type_name platform_payables = "PLATFORM_PAYABLES"

unfoldable pub platform_account_code : LedgerAccountType → String → String
platform_account_code type currency = account_type_name type +++ (":" +++ currency)

unfoldable pub wallet_account_code : String → String
wallet_account_code wallet_id = "WALLET:" +++ wallet_id

-- `debit`
abbrev pub debit_line : String → ℤ → LedgerLine
debit_line code amount = record {
  account_code = some code;
  wallet_id = none;
  direction = debit;
  amount_minor = amount;
}

-- `credit`
abbrev pub credit_line : String → ℤ → LedgerLine
credit_line code amount = record {
  account_code = some code;
  wallet_id = none;
  direction = credit;
  amount_minor = amount;
}

-- The checks of one entry in the loop of `assertBalanced`.
unfoldable pub check_line : LedgerLine → Result (Unit {0})
check_line entry = do
  throw_if (leb_ℤ entry.amount_minor (pos 0)) validation
  throw_if (not (has_text entry.account_code) && not (has_text entry.wallet_id)) validation
  throw_if (has_text entry.account_code && has_text entry.wallet_id) validation

-- `debits += …` or `credits += …`
abbrev pub add_debit : LedgerEntryDirection → ℤ → ℤ → ℤ
add_debit debit amount total = total +ℤ amount
add_debit credit amount total = total

abbrev pub add_credit : LedgerEntryDirection → ℤ → ℤ → ℤ
add_credit debit amount total = total
add_credit credit amount total = total +ℤ amount

-- The `forEach` of `assertBalanced`, from the sums so far.
unfoldable pub tally : List LedgerLine → ℤ → ℤ → Result (ℤ × ℤ)
unfolding check_line
tally [] debits credits = ok (debits, credits)
tally (entry ∷ rest) debits credits =
    check_line entry
    >> tally rest (add_debit entry.direction entry.amount_minor debits)
        (add_credit entry.direction entry.amount_minor credits)

-- `debits !== credits`
abbrev pub differ : ℤ → ℤ → Bool
differ a b = ltb_ℤ a b || ltb_ℤ b a

-- `assertBalanced`
unfoldable pub assert_balanced : List LedgerLine → Result (Unit {0})
unfolding tally
assert_balanced entries = do
  throw_if (ltb (length entries) 2) validation
  sums ← tally entries (pos 0) (pos 0)
  throw_if (differ sums.0 sums.1) validation
