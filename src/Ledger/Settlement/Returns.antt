-- ===== src/Ledger/Settlement/Returns.antt =====
-- `settlementEntries` returns a balanced plan for every input that a caller may hand in.
use Prim.Native.String.{String}
use tamam.Ledger.{platform_gateway_clearing, ok, LedgerLine}
use tamam.Ledger.Settlement.{
  compensation_of, settlement_entries, SettlementPlan, cancellation_entries, require_wallet,
  is_cash, payer, commission_of, is_positive, require_non_negative, or_zero, clamp, net_of,
  gross_of, pos, is_wallet, fare_entries, check_input, SettlementInput,
}
use tamam.Ledger.Settlement.Balanced.{
  fee_entries-IsFair, paid_entries-IsFair, cash_entries-IsFair, assert_entries-IsFair,
  append-IsFair, nil-IsFair, platform_account_code-has_text, IsFair,
}
use tamam.Prelude.{
  or_left, and_intro, or_right, inl, refl, Option, inr, ◌||◌, arith, ◌&&◌, Bool-cases, ◌≡◌, Bool,
  List, [], ◌++◌, some, none, true, false,
}
use tamam.Prelude.Int.{◌+ℤ◌, int_laws, ◌≤ℤ◌, ℤ}
use tamam.Shared.Errors.{Result}
use tamam.Shared.Text.{has_text}

-- The customer's wallet is charged: by a fare paid from the wallet, or by a cancellation fee on
-- a cash or wallet job.
abbrev pub charges_wallet : SettlementInput → Bool
charges_wallet input =
    (is_wallet input && is_positive input.job_total_minor)
    || ((is_cash input || is_wallet input) && is_positive input.cancellation_fee_minor)

-- Amounts that are not negative, a partner account, and the customer's where it is charged.
pub record IsSettleable (input : SettlementInput) : Type 0 where
  pub total : pos 0 ≤ℤ input.job_total_minor
  pub commission : pos 0 ≤ℤ input.commission_minor
  pub promo : pos 0 ≤ℤ input.promo_discount_minor
  pub fee : pos 0 ≤ℤ input.cancellation_fee_minor
  pub partner_fee : pos 0 ≤ℤ or_zero input.partner_fee_on_cancel_minor
  pub partner_account : has_text (some input.partner_wallet_account_code) ≡ true
  pub customer_account :
      charges_wallet input ≡ true → has_text input.customer_wallet_account_code ≡ true

-- A clamped amount lies between the bounds.
pub clamp_bounds : (v lo hi : ℤ) → lo ≤ℤ hi → (lo ≤ℤ clamp v lo hi) × (clamp v lo hi ≤ℤ hi)
clamp_bounds v lo hi h = ground arith

pub gross_nonneg : (input : SettlementInput) → IsSettleable input → pos 0 ≤ℤ gross_of input
gross_nonneg input h = omega (int_laws, h.total, h.promo)

pub require_non_negative-ok : (v : ℤ) → pos 0 ≤ℤ v → require_non_negative v ≡ ok tt
require_non_negative-ok v h = ground arith

check_input-ok : (input : SettlementInput) → IsSettleable input → check_input input ≡ ok tt
unfolding check_input
check_input-ok input h = rw (
  require_non_negative-ok _ h.total,
  require_non_negative-ok _ h.commission,
  require_non_negative-ok _ h.promo,
  require_non_negative-ok _ h.fee,
  require_non_negative-ok _ h.partner_fee,
)

-- The account that pays is found, and is not empty.
payer-ok :
    (from_wallet : Bool) (input : SettlementInput)
    → (from_wallet ≡ true → has_text input.customer_wallet_account_code ≡ true)
    → (account : String) × (payer from_wallet input ≡ ok account) × (has_text (some account) ≡ true)
payer-ok true input h = required input.customer_wallet_account_code (h refl)
  where
    required :
        (wallet : Option String)
        → has_text wallet ≡ true
        → (account : String) × (require_wallet wallet ≡ ok account)
          × (has_text (some account) ≡ true)
    required none e = cc
    required (some code) e = (code, rw e, e)
payer-ok false input h =
    (_, refl, platform_account_code-has_text platform_gateway_clearing input.currency)

-- The part of the commission and the partner's share make up the fare.
net-split : (input : SettlementInput) → gross_of input ≡ net_of input +ℤ commission_of input
net-split input = omega int_laws

abbrev Fair : Result (List LedgerLine) → Type 0
Fair r = (es : List LedgerLine) × (r ≡ ok es) × IsFair es

fare_entries-Fair : (input : SettlementInput) → IsSettleable input → Fair (fare_entries input)
unfolding fare_entries
fare_entries-Fair input h =
    let c = clamp_bounds input.commission_minor (pos 0) (gross_of input) (gross_nonneg input h) in
    elim (Bool-cases (is_positive (gross_of input))) [
      | inr none_due ↦ rw none_due ([], refl, nil-IsFair)
      | inl due ↦ elim (Bool-cases (is_cash input)) [
        | inl by_cash ↦
            rw (due, by_cash)
              (_, refl, cash_entries-IsFair _ _ h.partner_account _ _ _ h.total h.promo c.0)
        | inr other ↦
            let (account, found, named) =
              payer-ok (is_wallet input && is_positive input.job_total_minor) input
                (λ e. h.customer_account (or_left _ _ e)) in
            rw (due, other, found)
              (
                _,
                refl,
                paid_entries-IsFair _ _ h.partner_account account named _ _ _ _ h.total h.promo
                    (omega int_laws) c.0 (net-split input),
              )
      ]
    ]

cancellation_entries-Fair :
    (input : SettlementInput) → IsSettleable input → Fair (cancellation_entries input)
unfolding cancellation_entries
cancellation_entries-Fair input h =
    let k =
      clamp_bounds (or_zero input.partner_fee_on_cancel_minor) (pos 0) input.cancellation_fee_minor
        h.fee in
    elim (Bool-cases (is_positive input.cancellation_fee_minor)) [
      | inr none_due ↦ rw none_due ([], refl, nil-IsFair)
      | inl due ↦
          let (account, found, named) =
            payer-ok (is_cash input || is_wallet input) input
              (λ e. h.customer_account (or_right _ _ (and_intro _ _ e due))) in
          rw (due, found)
            (
              _,
              refl,
              fee_entries-IsFair input.currency input.partner_wallet_account_code h.partner_account
                  account named input.cancellation_fee_minor (compensation_of input) (ground arith)
                  k.0 k.1,
            )
    ]

-- What a settlement gives: a plan whose entries balance.
abbrev pub Balances : Result SettlementPlan → Type 0
Balances r = (plan : SettlementPlan) × (r ≡ ok plan) × IsFair plan.entries

-- With amounts that are not negative, a named partner account and a customer wallet wherever it
-- is charged, `settlementEntries` never throws: it returns a plan whose entries each have a
-- positive amount on one account, and whose debits and credits have the same sum.
pub settlement_entries-Balances :
    (input : SettlementInput) → IsSettleable input → Balances (settlement_entries input)
unfolding settlement_entries
settlement_entries-Balances input h =
    let (fare, charged, fair) = fare_entries-Fair input h in
    let (fee, feed, fair') = cancellation_entries-Fair input h in
    let together = append-IsFair fare fee fair fair' in
    rw (check_input-ok input h, charged, feed, assert_entries-IsFair (fare ++ fee) together)
      (_, refl, together)
