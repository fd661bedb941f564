-- ===== src/Ledger/Settlement/Effects.antt =====
-- What a settlement as a whole adds to the partner's wallet.
use Prim.Native.String.{String}
use mathlib.Core.Path.{subst}
use tamam.Ledger.{platform_gateway_clearing, ok, pos, platform_account_code, LedgerLine}
use tamam.Ledger.Settlement.{
  assert_entries, check_input, SettlementPlan, settlement_entries, err, or_zero, compensation_of,
  cancellation_entries, require_wallet, is_positive, gross_of, net_of, fare_entries, commission_of,
  payer, is_cash, SettlementInput,
}
use tamam.Ledger.Settlement.Accounts.{
  account_net-append, paid_entries-partner, fee_entries-partner, cash_entries-partner, account_net,
  account_net-nil,
}
use tamam.Ledger.Settlement.Returns.{gross_nonneg, clamp_bounds, IsSettleable}
use tamam.Prelude.{
  ap₂, sym, ◌++◌, [], true, ap, arith, ◌∙◌, refl, inr, inl, ◌≡◌, if◌then◌else◌, Bool, Bool-cases,
  ◌≢◌, Option, List, some, none, false,
}
use tamam.Prelude.Int.{◌+ℤ◌, int_laws, ◌-ℤ◌, ◌≤ℤ◌, ℤ}
use tamam.Shared.Enums.{LedgerAccountType}
use tamam.Shared.Errors.{bind_ok, then_ok, ◌>>=◌, Result, ok-injective}
use tamam.Shared.Text.{string_eq}

-- The partner's wallet is no platform account and is not the customer's.
pub record IsApart (input : SettlementInput) : Type 0 where
  pub platform :
      (type : LedgerAccountType)
      → platform_account_code type input.currency ≢ input.partner_wallet_account_code
  pub customer : input.customer_wallet_account_code ≢ some input.partner_wallet_account_code

payer-apart :
    (from_wallet : Bool) (input : SettlementInput)
    → IsApart input
    → (account : String) → payer from_wallet input ≡ ok account
    → account ≢ input.partner_wallet_account_code
payer-apart false input d account e =
    subst (λ c. c ≢ input.partner_wallet_account_code) (ok-injective _ _ e)
      (d.platform platform_gateway_clearing)
payer-apart true input d account e =
    λ same. d.customer (found input.customer_wallet_account_code e ∙ ap some same)
  where
    found : (wallet : Option String) → require_wallet wallet ≡ ok account → wallet ≡ some account
    found none k = cc
    found (some code) k = ground arith

-- What the fare brings the partner: in cash the promo less the commission, which the partner owes
-- out of the cash held; otherwise the fare less the commission.
abbrev pub fare_earning : SettlementInput → ℤ
fare_earning input =
    if is_cash input then input.promo_discount_minor -ℤ commission_of input else net_of input

-- If a call returns entries, they bring the account `v`.
abbrev Brings : String → ℤ → Result (List LedgerLine) → Type 0
Brings x v r = (es : List LedgerLine) → r ≡ ok es → account_net x es ≡ v

Brings-ok : (x : String) (v : ℤ) (es : List LedgerLine) → account_net x es ≡ v → Brings x v (ok es)
Brings-ok x v es h es' e = subst (λ l. account_net x l ≡ v) (ok-injective es es' e) h

Brings-bind :
    (x : String) (v : ℤ) (r : Result String) (f : String → List LedgerLine)
    → ((account : String) → r ≡ ok account → account_net x (f account) ≡ v)
    → Brings x v (r >>= λ account. ok (f account))
Brings-bind x v (ok account) f h = Brings-ok x v (f account) (h account refl)
Brings-bind x v (err e) f h = λ es k. cc

squeezed : (a fee : ℤ) → pos 0 ≤ℤ a → a ≤ℤ fee → fee ≤ℤ pos 0 → pos 0 ≡ a
squeezed a fee h k z = omega int_laws

module _ (input : SettlementInput) (h : IsSettleable input) where
  commission_bounds : (pos 0 ≤ℤ commission_of input) × (commission_of input ≤ℤ gross_of input)
  commission_bounds =
      clamp_bounds input.commission_minor (pos 0) (gross_of input) (gross_nonneg input h)

  compensation_bounds :
      (pos 0 ≤ℤ compensation_of input) × (compensation_of input ≤ℤ input.cancellation_fee_minor)
  compensation_bounds =
      clamp_bounds (or_zero input.partner_fee_on_cancel_minor) (pos 0) input.cancellation_fee_minor
        h.fee

  -- A zero amount is not positive, so nothing else is due.
  not_due : (a : ℤ) → is_positive a ≡ false → a ≤ℤ pos 0
  not_due a e = ground arith

  fare_earning-nothing : is_positive (gross_of input) ≡ false → fare_earning input ≡ pos 0
  fare_earning-nothing e =
      let none_left = not_due (gross_of input) e in
      let b = commission_bounds in
      elim (Bool-cases (is_cash input)) [
        | inl by_cash ↦ rw by_cash (omega (int_laws, h.total, h.promo))
        | inr other ↦ rw other (omega (int_laws, h.total, h.promo))
      ]

module _ (input : SettlementInput) (h : IsSettleable input) (d : IsApart input) where
  open input use {partner_wallet_account_code as partner, currency}

  fare_entries-partner : Brings partner (fare_earning input) (fare_entries input)
  unfolding fare_entries
  fare_entries-partner =
      let c = commission_bounds input h in
      elim (Bool-cases (is_positive (gross_of input))) [
        | inr none_due ↦
            rw (none_due, fare_earning-nothing input h none_due)
              (Brings-ok partner (pos 0) [] (account_net-nil partner))
        | inl due ↦ elim (Bool-cases (is_cash input)) [
          | inl by_cash ↦
              rw (due, by_cash)
                (Brings-ok partner _ _
                  (cash_entries-partner currency partner d.platform _ _ _ h.total h.promo c.0))
          | inr other ↦
              rw (due, other)
                (Brings-bind partner _ _ _ λ account found.
                  paid_entries-partner currency partner d.platform account _ _ _ _
                    (payer-apart _ input d account found) h.total h.promo (omega int_laws) c.0)
        ]
      ]

  cancellation_entries-partner : Brings partner (compensation_of input) (cancellation_entries input)
  unfolding cancellation_entries
  cancellation_entries-partner =
      let k = compensation_bounds input h in
      elim (Bool-cases (is_positive input.cancellation_fee_minor)) [
        | inr none_due ↦ rw none_due (
            Brings-ok partner _ [] (
              account_net-nil partner
              ∙ squeezed _ _ k.0 k.1 (not_due input h input.cancellation_fee_minor none_due)))
        | inl due ↦ rw due (
            Brings-bind partner _ _ _ λ account found.
              fee_entries-partner currency partner d.platform account _ _
                (payer-apart _ input d account found) k.0 k.1)
      ]

  -- A settlement changes the partner's wallet by this much, if the wallet is neither a platform
  -- account nor the customer's: on a cash job the promo discount less the commission (the partner
  -- keeps the cash and owes the commission), otherwise the fare less the commission; and the
  -- clamped share of the cancellation fee.
  pub settlement-partner_net :
      (plan : SettlementPlan)
      → settlement_entries input ≡ ok plan
      → account_net partner plan.entries ≡ fare_earning input +ℤ compensation_of input
  unfolding settlement_entries
  settlement-partner_net plan e =
      let (_, rest) = then_ok (check_input input) _ e in
      let (fare, charged, rest₁) = bind_ok (fare_entries input) _ rest in
      let (fee, feed, rest₂) = bind_ok (cancellation_entries input) _ rest₁ in
      let (_, made) = then_ok (assert_entries (fare ++ fee)) _ rest₂ in
      ap (λ (q : SettlementPlan). account_net partner q.entries) (sym (ok-injective _ _ made))
      ∙ account_net-append partner fare fee
      ∙ ap₂ ◌+ℤ◌ (fare_entries-partner fare charged) (cancellation_entries-partner fee feed)
