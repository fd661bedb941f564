-- ===== src/Ledger/Settlement.antt =====
-- `settlementEntries` and `refundEntries` of
-- apps/api/src/modules/ledger/domain/ledger.rules.ts.
pub mod Sums
pub mod Balanced
pub mod Returns
pub mod Accounts
pub mod Effects
pub mod Refund
use Prim.Native.String.{String}
use tamam.Ledger.{
  platform_refund_expense, credit_line, platform_promo_expense, platform_cash_clearing, debit_line,
  platform_revenue, platform_gateway_clearing, assert_balanced, platform_account_code, pos, ok,
  LedgerLine,
}
use tamam.Prelude.{◌&&◌, ◌||◌, none, some, not, if◌then◌else◌, Option, Bool, List, [], ◌∷◌, ◌++◌}
use tamam.Prelude.Data.{Eq, ◌===◌}
use tamam.Prelude.Int.{◌+ℤ◌, ◌-ℤ◌, ltb_ℤ, ℤ}
use tamam.Shared.Enums.{
  cancellation_fee, job_charge, payment_method_eq, cash, wallet, PaymentMethod,
  LedgerTransactionType,
}
use tamam.Shared.Errors.{◌>>◌, ◌>>=◌, validation, err, throw_if, Result}
use tamam.Shared.Text.{has_text}

pub record SettlementInput : Type 0 where
  pub job_total_minor : ℤ
  pub commission_minor : ℤ
  pub payment_method : PaymentMethod
  pub promo_discount_minor : ℤ
  pub cancellation_fee_minor : ℤ
  pub partner_fee_on_cancel_minor : Option ℤ
  pub currency : String
  pub customer_wallet_account_code : Option String
  pub partner_wallet_account_code : String

pub record SettlementPlan : Type 0 where
  pub type : LedgerTransactionType
  pub entries : List LedgerLine
  pub gross_fare_minor : ℤ
  pub commission_minor : ℤ
  pub partner_net_minor : ℤ
  pub partner_cancellation_compensation_minor : ℤ

-- `clamp`
abbrev pub clamp : ℤ → ℤ → ℤ → ℤ
clamp value lo hi = if ltb_ℤ value lo then lo else if ltb_ℤ hi value then hi else value

-- `requireNonNegative`
abbrev pub require_non_negative : ℤ → Result (Unit {0})
require_non_negative value = throw_if (ltb_ℤ value (pos 0)) validation

-- `value ?? 0n`
abbrev pub or_zero : Option ℤ → ℤ
or_zero none = pos 0
or_zero (some value) = value

abbrev pub is_positive : ℤ → Bool
is_positive value = ltb_ℤ (pos 0) value

-- `if (test) entries.push(...)`
abbrev pub push_if : Bool → List LedgerLine → List LedgerLine
push_if test lines = if test then lines else []

-- The customer's wallet account where an entry needs it.
abbrev pub require_wallet : Option String → Result String
require_wallet none = err validation
require_wallet (some code) = if has_text (some code) then ok code else err validation

-- The entries of a fare that the partner collected in cash.
unfoldable pub cash_entries : String → String → ℤ → ℤ → ℤ → List LedgerLine
cash_entries currency partner total promo commission =
    let revenue = platform_account_code platform_revenue currency in
    let cash_clearing = platform_account_code platform_cash_clearing currency in
    let promo_expense = platform_account_code platform_promo_expense currency in
    push_if (is_positive total) (debit_line cash_clearing total ∷ credit_line partner total ∷ [])
    ++ (push_if (is_positive promo)
          (debit_line promo_expense promo ∷ credit_line partner promo ∷ [])
        ++ (push_if (is_positive commission)
              (debit_line partner commission ∷ credit_line revenue commission ∷ [])
            ++ push_if (is_positive total)
                (debit_line partner total ∷ credit_line cash_clearing total ∷ [])))

-- The entries of a fare paid otherwise, charged to the account `payer`.
unfoldable pub paid_entries : String → String → String → ℤ → ℤ → ℤ → ℤ → List LedgerLine
paid_entries currency payer partner total promo net commission =
    let revenue = platform_account_code platform_revenue currency in
    let promo_expense = platform_account_code platform_promo_expense currency in
    push_if (is_positive total) (debit_line payer total ∷ [])
    ++ (push_if (is_positive promo) (debit_line promo_expense promo ∷ [])
        ++ (push_if (is_positive net) (credit_line partner net ∷ [])
            ++ push_if (is_positive commission) (credit_line revenue commission ∷ [])))

-- The entries of a cancellation fee.
unfoldable pub fee_entries : String → String → String → ℤ → ℤ → List LedgerLine
fee_entries currency payer partner fee compensation =
    let revenue = platform_account_code platform_revenue currency in
    let share = fee -ℤ compensation in
    debit_line payer fee
    ∷ (push_if (is_positive compensation) (credit_line partner compensation ∷ [])
        ++ push_if (is_positive share) (credit_line revenue share ∷ []))

-- Who pays: the customer's wallet, needed only if the test holds, or the gateway.
abbrev pub payer : Bool → SettlementInput → Result String
payer from_wallet input =
    if from_wallet
    then require_wallet input.customer_wallet_account_code
    else ok (platform_account_code platform_gateway_clearing input.currency)

abbrev pub is_cash : SettlementInput → Bool
is_cash input = input.payment_method === cash

abbrev pub is_wallet : SettlementInput → Bool
is_wallet input = input.payment_method === wallet

-- The fare before the discount, the commission applied, and what is left to the partner.
abbrev pub gross_of : SettlementInput → ℤ
gross_of input = input.job_total_minor +ℤ input.promo_discount_minor

abbrev pub commission_of : SettlementInput → ℤ
commission_of input = clamp input.commission_minor (pos 0) (gross_of input)

abbrev pub net_of : SettlementInput → ℤ
net_of input = gross_of input -ℤ commission_of input

abbrev pub compensation_of : SettlementInput → ℤ
compensation_of input =
    clamp (or_zero input.partner_fee_on_cancel_minor) (pos 0) input.cancellation_fee_minor

-- The `if (grossFareMinor > 0n)` block. The wallet is looked up only where it is charged.
unfoldable pub fare_entries : SettlementInput → Result (List LedgerLine)
unfolding cash_entries paid_entries
fare_entries input =
    if not (is_positive (gross_of input))
    then ok []
    else if is_cash input
    then ok (
        cash_entries input.currency input.partner_wallet_account_code input.job_total_minor
          input.promo_discount_minor (commission_of input))
    else do
      account ← payer (is_wallet input && is_positive input.job_total_minor) input
      ok (
          paid_entries input.currency account input.partner_wallet_account_code
            input.job_total_minor input.promo_discount_minor (net_of input) (commission_of input))

-- The `if (input.cancellationFeeMinor > 0n)` block.
unfoldable pub cancellation_entries : SettlementInput → Result (List LedgerLine)
unfolding fee_entries
cancellation_entries input = if not (is_positive input.cancellation_fee_minor) then ok [] else do
  account ← payer (is_cash input || is_wallet input) input
  ok (
      fee_entries input.currency account input.partner_wallet_account_code
        input.cancellation_fee_minor (compensation_of input))

-- `if (entries.length) assertBalanced(entries)`
abbrev pub assert_entries : List LedgerLine → Result (Unit {0})
assert_entries [] = ok tt
assert_entries (entry ∷ rest) = assert_balanced (entry ∷ rest)

-- The five `requireNonNegative` calls.
unfoldable pub check_input : SettlementInput → Result (Unit {0})
check_input input = do
  require_non_negative input.job_total_minor
  require_non_negative input.commission_minor
  require_non_negative input.promo_discount_minor
  require_non_negative input.cancellation_fee_minor
  require_non_negative (or_zero input.partner_fee_on_cancel_minor)

-- `settlementEntries`
unfoldable pub settlement_entries : SettlementInput → Result SettlementPlan
unfolding check_input fare_entries cancellation_entries
settlement_entries input = do
  check_input input
  fare ← fare_entries input
  fee ← cancellation_entries input
  assert_entries (fare ++ fee)
  ok (record {
    type = if is_positive (gross_of input) then job_charge else cancellation_fee;
    entries = fare ++ fee;
    gross_fare_minor = gross_of input;
    commission_minor = commission_of input;
    partner_net_minor = net_of input;
    partner_cancellation_compensation_minor = compensation_of input;
  })

-- `refundEntries`
unfoldable pub refund_entries : ℤ → String → String → Result (List LedgerLine)
refund_entries amount currency customer = do
  require_non_negative amount
  let entries =
      debit_line (platform_account_code platform_refund_expense currency) amount
      ∷ credit_line customer amount
      ∷ []
  assert_balanced entries
  ok entries
