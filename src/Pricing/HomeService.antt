-- ===== src/Pricing/HomeService.antt =====
-- `computeHomeServiceFare` of apps/api/src/modules/pricing/domain/fare-calculator.ts.
use tamam.Money.{Decimal, one, percent_of, multiply, max0}
use tamam.Prelude.{
  false, true, ◌++◌, none, ltb, [], if◌then◌else◌, ◌&&◌, Bool, not, some, ◌∷◌, ℕ, List, Option,
}
use tamam.Prelude.Int.{ℤ, pos, ltb_ℤ, negate, ◌+ℤ◌, ◌-ℤ◌}
use tamam.Pricing.{
  quote_discount, additional_fees, options, FareCode, charge_if, finish, Bill, FareResult, FareLine,
  line,
}
use tamam.Pricing.Fares.{or_else}
use tamam.Shared.Enums.{JobUrgency}

pub data PricingMethod : Type 0 where
  fixed inspection_quote hourly starting_from custom_quote : PricingMethod

-- `HomeServicePricingRule`
pub record HomeServicePricingRule : Type 0 where
  pub inspection_fee : ℕ
  pub inspection_fee_waived_on_approval : Bool
  pub urgency_surcharge_percent : JobUrgency → Option Decimal
  pub booking_fee : ℕ
  pub tax_percent : Decimal

-- The approved totals of a quote.
pub record QuoteTotals : Type 0 where
  pub labor_minor : ℤ
  pub parts_minor : ℤ
  pub fees_minor : ℤ
  pub discount_minor : ℤ

-- `HomeServiceInputs`
pub record HomeServiceInputs : Type 0 where
  pub pricing_method : PricingMethod
  pub fixed_price_minor : Option ℤ
  pub starting_from_minor : Option ℤ
  pub hourly_rate_minor : Option ℤ
  pub hours : Option Decimal
  pub options_minor : ℤ
  pub inspection_fee_minor : Option ℤ
  pub urgency : JobUrgency
  pub quote : Option QuoteTotals
  pub quote_approved : Bool

-- `if (test) lines.push({ code, amountMinor: amount })`
abbrev pub line_if : Bool → FareCode → ℤ → List FareLine
line_if test code amount = if test then line code amount ∷ [] else []

-- `input.inspectionFeeMinor ?? BigInt(rule.inspectionFee)`
abbrev pub inspection_of : Option ℤ → ℕ → ℤ
inspection_of none fee = pos fee
inspection_of (some amount) fee = amount

-- The lines and the total of an approved quote.
abbrev pub quote_bill : QuoteTotals → Bill
quote_bill q = record {
  lines =
      (line FareCode.labor q.labor_minor ∷ line FareCode.parts q.parts_minor ∷ [])
      ++ line_if (ltb_ℤ (pos 0) q.fees_minor) additional_fees q.fees_minor
      ++ line_if (ltb_ℤ (pos 0) q.discount_minor) quote_discount (negate q.discount_minor);
  amount = max0 (q.labor_minor +ℤ q.parts_minor +ℤ q.fees_minor -ℤ q.discount_minor);
}

-- With the inspection fee, unless the rule waives it.
abbrev pub quoted : HomeServicePricingRule → ℤ → QuoteTotals → Bill
quoted rule inspection q =
    charge_if (not rule.inspection_fee_waived_on_approval && ltb_ℤ (pos 0) inspection)
      FareCode.inspection_fee inspection (quote_bill q)

abbrev pub one_line : FareCode → ℤ → Bill
one_line code amount = record { lines = line code amount ∷ []; amount = amount }

-- The commitment before a quote is approved: the visit.
abbrev pub visit : ℤ → Bill
visit inspection = record {
  lines = line_if (ltb_ℤ (pos 0) inspection) FareCode.inspection_fee inspection;
  amount = inspection;
}

-- `Math.max(1, input.hours ?? 1)`
abbrev pub hours_of : Option Decimal → Decimal
hours_of none = one
hours_of (some h) = if ltb h one then one else h

-- The `else if` chain on the pricing method, with the price that the method needs.
abbrev pub by_method : HomeServiceInputs → ℤ → PricingMethod → Option ℤ → Option ℤ → Option ℤ → Bill
by_method input inspection fixed (some price) hourly_rate start =
    one_line FareCode.fixed_price price
by_method input inspection PricingMethod.hourly price (some rate) start =
    one_line FareCode.hourly (multiply rate (hours_of input.hours))
by_method input inspection starting_from price hourly_rate (some amount) =
    one_line FareCode.fixed_price amount
by_method input inspection _ price hourly_rate start = visit inspection

-- `input.quote && input.quoteApproved`
abbrev pub core_of : HomeServicePricingRule → ℤ → Bill → Option QuoteTotals → Bool → Bill
core_of rule inspection unquoted (some q) true = quoted rule inspection q
core_of rule inspection unquoted (some q) false = unquoted
core_of rule inspection unquoted none approved = unquoted

unfoldable pub home_core : HomeServicePricingRule → HomeServiceInputs → Bill
home_core rule input =
    let inspection = inspection_of input.inspection_fee_minor rule.inspection_fee in
    core_of rule inspection
      (by_method input inspection input.pricing_method input.fixed_price_minor
        input.hourly_rate_minor input.starting_from_minor)
      input.quote input.quote_approved

-- `computeHomeServiceFare`
unfoldable pub compute_home_service_fare : HomeServicePricingRule → HomeServiceInputs → FareResult
unfolding home_core charge_if finish
compute_home_service_fare rule input =
    let core = home_core rule input in
    let extended = charge_if (ltb_ℤ (pos 0) input.options_minor) options input.options_minor core in
    let urgency_percent = or_else 0 (rule.urgency_surcharge_percent input.urgency) in
    let urged =
      charge_if (ltb 0 urgency_percent && ltb_ℤ (pos 0) extended.amount) FareCode.urgency
        (percent_of extended.amount urgency_percent) extended in
    let booked =
      charge_if (ltb 0 rule.booking_fee) FareCode.booking_fee (pos rule.booking_fee) urged in
    finish booked rule.tax_percent one
