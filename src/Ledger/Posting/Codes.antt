-- ===== src/Ledger/Posting/Codes.antt =====
-- The accounts behind the codes: `accountForCode`, `walletIdFromCode` and `getOrCreateAccount` of
-- apps/api/src/modules/ledger/ledger.service.ts, and `assertSupportedCurrency` of
-- apps/api/src/modules/ledger/domain/ledger.rules.ts. A race for the creation of an account is not modelled.
use Prim.Native.String.{String, len, slice, find, compare}
use tamam.Ledger.{wallet_account_code, platform_account_code, account_type_name}
use tamam.Prelude.{ℕ, suc, ◌==◌, Bool, not, ◌&&◌, Option, none, some, List, [], ◌∷◌, if◌then◌else◌}
use tamam.Prelude.Data.{◌===◌, Eq, discrete_eq}
use tamam.Prelude.Int.{ℤ}
use tamam.Prelude.Lists.{find?, any}
use tamam.Shared.Enums.{
  LedgerAccountType, customer_wallet, partner_wallet, platform_revenue, platform_cash_clearing,
  platform_gateway_clearing, platform_promo_expense, platform_refund_expense, platform_payables,
}
use tamam.Shared.Errors.{
  Result, ok, validation, not_found_error, bad_request, validation_failed, throw_if, or_throw,
  ◌>>=◌, ◌>>◌,
}
use tamam.Shared.Text.{string_eq, has_text}
use text.Mathlib.Text.{starts_with, is_le}

pub data WalletOwnerType : Type 0 where
  customer partner platform : WalletOwnerType

instance abbrev pub wallet_owner_eq : Eq WalletOwnerType
wallet_owner_eq = discrete_eq (hlevel)

-- A row of `wallets`.
pub record Wallet : Type 0 where
  pub id : String
  pub owner_type : WalletOwnerType
  pub currency : String
  pub balance_minor : ℤ

-- A row of `ledger_accounts`.
pub record Account : Type 0 where
  pub type : LedgerAccountType
  pub code : String
  pub currency : String
  pub wallet_id : Option String

-- A capital letter at a position.
abbrev capital_at : String → ℕ → Bool
capital_at s i = let c = slice s i (suc i) in is_le (compare "A" c) && is_le (compare c "Z")

-- `assertSupportedCurrency`
unfoldable pub assert_supported_currency : String → Result (Unit {0})
assert_supported_currency currency =
    throw_if
      (not (
        len currency == 3
        && (capital_at currency 0 && (capital_at currency 1 && capital_at currency 2))))
      (bad_request validation_failed)

-- `walletIdFromCode`
unfoldable pub wallet_id_from_code : String → Option String
wallet_id_from_code code =
    if starts_with code "WALLET:" then some (slice code 7 (len code)) else none

-- `getOrCreateAccount`, on the table of accounts.
abbrev pub add_account : Account → List Account → List Account
add_account account accounts =
    if any (λ a. a.code === account.code) accounts then accounts else account ∷ accounts

abbrev pub account_types : List LedgerAccountType
account_types =
    customer_wallet ∷ partner_wallet ∷ platform_revenue ∷ platform_cash_clearing
    ∷ platform_gateway_clearing ∷ platform_promo_expense ∷ platform_refund_expense
    ∷ platform_payables ∷ []

-- `code.split(':')`: the first part, and the second one, which is empty when there is none.
abbrev pub first_part : String → String
first_part code = slice code 0 (find code ":")

abbrev pub second_part : String → String
second_part code = first_part (slice code (suc (find code ":")) (len code))

-- The account of a wallet.
unfoldable pub wallet_account : List Wallet → String → String → Result Account
wallet_account wallets id currency = do
  wallet ← or_throw (find? (λ w. w.id === id) wallets) not_found_error
  throw_if (not (wallet.currency === currency)) validation
  assert_supported_currency currency
  ok (record {
    type =
        if wallet.owner_type === WalletOwnerType.partner then partner_wallet else customer_wallet;
    code = wallet_account_code id;
    currency = currency;
    wallet_id = some id;
  })

-- The account of the platform.
unfoldable pub platform_account : String → String → Result Account
platform_account code currency = do
  type ← or_throw (find? (λ t. account_type_name t === first_part code) account_types) validation
  throw_if (not (has_text (some (second_part code)))) validation
  throw_if (not (second_part code === currency)) validation
  assert_supported_currency (second_part code)
  ok (record {
    type = type;
    code = platform_account_code type (second_part code);
    currency = second_part code;
    wallet_id = none;
  })

-- `if (walletId)`
abbrev pub if_text : Option String → (String → Result Account) → Result Account → Result Account
if_text none by_wallet otherwise = otherwise
if_text (some id) by_wallet otherwise = if has_text (some id) then by_wallet id else otherwise

-- `accountForCode`
unfoldable pub account_for_code : List Wallet → String → String → Result Account
account_for_code wallets code currency =
    if_text (wallet_id_from_code code) (λ id. wallet_account wallets id currency)
      (platform_account code currency)
