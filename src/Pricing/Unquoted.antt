-- ===== src/Pricing/Unquoted.antt =====
-- The lines of a home service that ends without a quote.
use tamam.Prelude.{
  ℕ, ◌≡◌, refl, Bool, true, false, Option, none, some, List, [], ◌∷◌, ◌++◌, inl, inr, Bool-cases,
  arith,
}
use tamam.Prelude.Int.{ℤ, pos, ltb_ℤ, negate, ◌-ℤ◌}
use tamam.Prelude.Lists.{any, filter}
use tamam.Pricing.{
  Bill, FareResult, FareLine, FareCode, line, is_kept, apply_promo_and_tax, discount_of, tax_on,
  with_tax, with_promo, charge_if, finish,
}
use tamam.Money.{one}
use tamam.Pricing.Fares.{or_else}
use tamam.Pricing.Final.{FareTerms, Actuals, finalize_fare, final_fare, home_service_inputs}
use tamam.Pricing.HomeService.{
  HomeServicePricingRule, HomeServiceInputs, PricingMethod, compute_home_service_fare, home_core,
  by_method, inspection_of, visit,
}
use tamam.Shared.Enums.{JobType}
use tamam.Shared.Errors.{ok, or_throw, bind_ok, ok-injective, internal_exception}

-- The lines of work: what a quote bills, and options.
abbrev pub is_work : FareLine → Bool
is_work l = elim l.code [
  | FareCode.labor ↦ true
  | FareCode.parts ↦ true
  | FareCode.additional_fees ↦ true
  | FareCode.quote_discount ↦ true
  | FareCode.options ↦ true
  | _ ↦ false
]

abbrev IsWorkless : List FareLine → Type 0
IsWorkless ls = any is_work ls ≡ false

snoc-IsWorkless :
    (ls : List FareLine) (l : FareLine)
    → is_work l ≡ false
    → IsWorkless ls
    → IsWorkless (ls ++ l ∷ [])
snoc-IsWorkless [] l e h = rw e refl
snoc-IsWorkless (x ∷ xs) l e h = ground (arith, snoc-IsWorkless xs l e)

-- A bill without a line of work.
record IsWorklessBill (bill : Bill) : Type 0 where
  absent : IsWorkless bill.lines

charge_if-IsWorklessBill :
    (test : Bool) (code : FareCode) (b : ℤ) (bill : Bill)
    → is_work (line code b) ≡ false
    → IsWorklessBill bill
    → IsWorklessBill (charge_if test code b bill)
unfolding charge_if
charge_if-IsWorklessBill true code b bill e h = record {
  absent = snoc-IsWorkless bill.lines (line code b) e h.absent;
}
charge_if-IsWorklessBill false code b bill e h = h

skip-IsWorklessBill :
    (code : FareCode) (b : ℤ) (bill : Bill)
    → IsWorklessBill bill
    → IsWorklessBill (charge_if false code b bill)
unfolding charge_if
skip-IsWorklessBill code b bill h = h

with_tax-IsWorkless : (t : ℤ) (ls : List FareLine) → IsWorkless ls → IsWorkless (with_tax t ls)
with_tax-IsWorkless t ls h = elim (Bool-cases (ltb_ℤ (pos 0) t)) [
  | inl e ↦ rw e (snoc-IsWorkless ls (line FareCode.tax t) refl h)
  | inr n ↦ rw n h
]

with_promo-IsWorkless : (d : ℤ) (ls : List FareLine) → IsWorkless ls → IsWorkless (with_promo d ls)
with_promo-IsWorkless d ls h = elim (Bool-cases (ltb_ℤ (pos 0) d)) [
  | inl e ↦ rw e (snoc-IsWorkless ls (line FareCode.promo (negate d)) refl h)
  | inr n ↦ rw n h
]

filter-IsWorkless : (ls : List FareLine) → IsWorkless ls → IsWorkless (filter is_kept ls)
filter-IsWorkless [] h = refl
filter-IsWorkless (l ∷ ls) h = ground (arith, filter-IsWorkless ls)

visit-IsWorkless : (inspection : ℤ) → IsWorkless (visit inspection).lines
visit-IsWorkless inspection = elim (Bool-cases (ltb_ℤ (pos 0) inspection)) [
  | inl e ↦ rw e refl
  | inr n ↦ rw n refl
]

by_method-IsWorkless :
    (input : HomeServiceInputs) (inspection : ℤ) (method : PricingMethod)
    (price rate start : Option ℤ)
    → IsWorkless (by_method input inspection method price rate start).lines
by_method-IsWorkless input inspection PricingMethod.fixed (some price) rate start = refl
by_method-IsWorkless input inspection PricingMethod.fixed none rate start =
    visit-IsWorkless inspection
by_method-IsWorkless input inspection PricingMethod.hourly price (some rate) start = refl
by_method-IsWorkless input inspection PricingMethod.hourly price none start =
    visit-IsWorkless inspection
by_method-IsWorkless input inspection PricingMethod.starting_from price rate (some amount) = refl
by_method-IsWorkless input inspection PricingMethod.starting_from price rate none =
    visit-IsWorkless inspection
by_method-IsWorkless input inspection PricingMethod.inspection_quote price rate start =
    visit-IsWorkless inspection
by_method-IsWorkless input inspection PricingMethod.custom_quote price rate start =
    visit-IsWorkless inspection

-- Without a quote and without options.
abbrev pub no_quote : Actuals
no_quote = record {
  distance_meters = none;
  duration_seconds = none;
  waiting_seconds = none;
  hours = none;
  quote = none;
  options_minor = some (pos 0);
}

home_core-IsWorklessBill :
    (rule : HomeServicePricingRule) (terms : FareTerms)
    → IsWorklessBill (home_core rule (home_service_inputs terms no_quote))
unfolding home_core
home_core-IsWorklessBill rule terms =
    let input = home_service_inputs terms no_quote in
    record {
      absent =
          by_method-IsWorkless input (inspection_of input.inspection_fee_minor rule.inspection_fee)
            input.pricing_method input.fixed_price_minor input.hourly_rate_minor
            input.starting_from_minor;
    }

finish-IsWorkless :
    (bill : Bill) (p surge_multiplier : ℕ)
    → IsWorklessBill bill
    → IsWorkless (finish bill p surge_multiplier).lines
unfolding finish
finish-IsWorkless bill p m h = with_tax-IsWorkless (tax_on p bill.amount) bill.lines h.absent

home_service-IsWorkless :
    (rule : HomeServicePricingRule) (terms : FareTerms)
    → IsWorkless (compute_home_service_fare rule (home_service_inputs terms no_quote)).lines
unfolding compute_home_service_fare
home_service-IsWorkless rule terms = finish-IsWorkless _ rule.tax_percent one (
    charge_if-IsWorklessBill _ FareCode.booking_fee _ _ refl (
      charge_if-IsWorklessBill _ FareCode.urgency _ _ refl
        (skip-IsWorklessBill FareCode.options (pos 0) _ (home_core-IsWorklessBill rule terms))))

applied-IsWorkless :
    (fare : FareResult) (promo : ℤ) (tax_percent : ℕ)
    → IsWorkless fare.lines
    → IsWorkless (apply_promo_and_tax fare promo tax_percent).lines
unfolding apply_promo_and_tax
applied-IsWorkless fare promo tax_percent h =
    let discount = discount_of promo fare.subtotal_minor in
    let kept = filter is_kept fare.lines in
    with_tax-IsWorkless (tax_on tax_percent (fare.subtotal_minor -ℤ discount))
      (with_promo discount kept)
      (with_promo-IsWorkless discount kept (filter-IsWorkless fare.lines h))

-- The fare of a home service that ends without a quote has no line of work.
pub finalize_fare-IsWorkless :
    (terms : FareTerms) (fare : FareResult)
    → finalize_fare JobType.home_service terms no_quote ≡ ok fare
    → IsWorkless fare.lines
unfolding finalize_fare final_fare
finalize_fare-IsWorkless terms fare h =
    let (snapshot, _, h₁) = bind_ok (or_throw terms.pricing_snapshot internal_exception) _ h in
    let (rule, _, h₂) = bind_ok (or_throw snapshot.rule.as_home_service internal_exception) _ h₁ in
    rw (← ok-injective _ _ h₂) (
      applied-IsWorkless (compute_home_service_fare rule (home_service_inputs terms no_quote))
        terms.promo_discount_minor (or_else rule.tax_percent snapshot.tax_percent)
        (home_service-IsWorkless rule terms))
