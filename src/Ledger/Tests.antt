-- ===== src/Ledger/Tests.antt =====
-- The theorems on the ledger at concrete entries and settlements.
use Prim.Native.String.{String}
use tamam.Ledger.{
  platform_account_code, credit_line, ok, debit_line, pos, LedgerLine, assert_balanced,
}
use tamam.Ledger.Balance.{assert_balanced_iff, IsBalanced}
use tamam.Ledger.Settlement.{compensation_of, settlement_entries, SettlementInput}
use tamam.Ledger.Settlement.Accounts.{account_net}
use tamam.Ledger.Settlement.Effects.{settlement-partner_net, fare_earning, IsApart}
use tamam.Ledger.Settlement.Returns.{settlement_entries-Balances, Balances, IsSettleable}
use tamam.Prelude.{none, ap, Option, some, [], ◌∷◌, ◌≢◌, ◌↔◌, false, ◌≡◌, List, arith, refl}
use tamam.Prelude.Data.{◌===◌}
use tamam.Prelude.Int.{◌+ℤ◌}
use tamam.Shared.Enums.{customer_wallet, PaymentMethod, LedgerAccountType}
use tamam.Shared.Text.{string_eq}

abbrev ride_entries : List LedgerLine
ride_entries =
    debit_line "PLATFORM_CASH_CLEARING:ILS" (pos 1000)
    ∷ credit_line "WALLET:p1" (pos 850)
    ∷ credit_line "PLATFORM_REVENUE:ILS" (pos 150)
    ∷ []

assert_balanced_iff_example : (assert_balanced ride_entries ≡ ok tt) ↔ IsBalanced ride_entries
assert_balanced_iff_example = assert_balanced_iff ride_entries

abbrev wallet_job : SettlementInput
wallet_job = record {
  job_total_minor = pos 2000;
  commission_minor = pos 300;
  payment_method = PaymentMethod.wallet;
  promo_discount_minor = pos 500;
  cancellation_fee_minor = pos 100;
  partner_fee_on_cancel_minor = some (pos 60);
  currency = "ILS";
  customer_wallet_account_code = some "WALLET:c1";
  partner_wallet_account_code = "WALLET:p1";
}

wallet_job-IsSettleable : IsSettleable wallet_job
wallet_job-IsSettleable = record {
  total = omega arith;
  commission = omega arith;
  promo = omega arith;
  fee = omega arith;
  partner_fee = omega arith;
  partner_account = refl;
  customer_account = λ e. refl;
}

settlement_entries-Balances_example : Balances (settlement_entries wallet_job)
settlement_entries-Balances_example = settlement_entries-Balances wallet_job wallet_job-IsSettleable

unequal : (a b : String) → (a === b) ≡ false → a ≢ b
unequal a b n e = cc (n, (string_eq.beq_iff a b).1 e)

abbrev owner : Option String → String
owner none = ""
owner (some code) = code

wallet_job-IsApart : IsApart wallet_job
unfolding platform_account_code
wallet_job-IsApart = record {
  platform = λ type. unequal _ _ (elsewhere type);
  customer = λ e. unequal "WALLET:c1" "WALLET:p1" refl (ap owner e);
}
  where
    elsewhere :
        (type : LedgerAccountType) → (platform_account_code type "ILS" === "WALLET:p1") ≡ false
    elsewhere customer_wallet = refl
    elsewhere _ = refl

abbrev wallet_settled : Balances (settlement_entries wallet_job)
wallet_settled = settlement_entries-Balances wallet_job wallet_job-IsSettleable

settlement-partner_net_example :
    account_net "WALLET:p1" wallet_settled.0.entries
    ≡ fare_earning wallet_job +ℤ compensation_of wallet_job
settlement-partner_net_example =
    settlement-partner_net wallet_job wallet_job-IsSettleable wallet_job-IsApart wallet_settled.0
      wallet_settled.1
