-- ===== src/Pricing/Final.antt =====
-- `finalizeFare` of apps/api/src/modules/pricing/pricing.service.ts: the fare of a job when it ends,
-- by the rule that was frozen when it was ordered. The rows that the service reads are arguments; a
-- stored rule is what the schema of each job type reads from it.
use tamam.Money.{Decimal}
use tamam.Prelude.{◌*◌, Bool, true, false, ltb, Option, none, some, if◌then◌else◌}
use tamam.Prelude.Int.{ℤ, pos}
use tamam.Pricing.{FareResult, apply_promo_and_tax}
use tamam.Pricing.Fares.{
  RidePricingRule, DeliveryPricingRule, PackageSize, compute_ride_fare, compute_delivery_fare,
  or_else,
}
use tamam.Pricing.HomeService.{
  HomeServicePricingRule, HomeServiceInputs, PricingMethod, QuoteTotals, compute_home_service_fare,
}
use tamam.Shared.Enums.{JobType, JobUrgency}
use tamam.Shared.Errors.{Result, ok, internal_exception, or_throw, ◌>>=◌}

-- `safeParse` of each schema on the stored rule; `none` is a rule that it does not accept.
pub record StoredRule : Type 0 where
  pub as_ride : Option RidePricingRule
  pub as_delivery : Option DeliveryPricingRule
  pub as_home_service : Option HomeServicePricingRule

-- A row of `pricing_snapshots` with the fields of its inputs that are read.
pub record PricingSnapshot : Type 0 where
  pub rule : StoredRule
  pub surge_multiplier : Decimal
  pub tax_percent : Option Decimal
  pub size : Option PackageSize
  pub weight_kg : Option Decimal

-- A row of `service_categories`.
pub record ServiceCategory : Type 0 where
  pub pricing_method : PricingMethod
  pub fixed_price_minor : Option ℤ
  pub starting_from_minor : Option ℤ
  pub hourly_rate_minor : Option ℤ
  pub inspection_fee_minor : Option ℤ

-- The parameter `job`, less its type, with the rows that it names.
pub record FareTerms : Type 0 where
  pub pricing_snapshot : Option PricingSnapshot
  pub promo_discount_minor : ℤ
  pub urgency : JobUrgency
  pub distance_meters : Option Decimal
  pub duration_seconds : Option Decimal
  pub category : Option ServiceCategory

-- The parameter `actuals`.
pub record Actuals : Type 0 where
  pub distance_meters : Option Decimal
  pub duration_seconds : Option Decimal
  pub waiting_seconds : Option Decimal
  pub hours : Option Decimal
  pub quote : Option QuoteTotals
  pub options_minor : Option ℤ

-- `actual ?? job ?? 0`
abbrev pub measured : Option Decimal → Option Decimal → Decimal
measured actual estimated = or_else (or_else 0 estimated) actual

-- `actual > estDistance * 1.15 ? actual : estDistance`
abbrev pub delivered_distance : Decimal → Decimal → Decimal
delivered_distance actual estimated =
    if ltb (115 * estimated) (100 * actual) then actual else estimated

abbrev pub size_or_small : Option PackageSize → PackageSize
size_or_small none = PackageSize.small
size_or_small (some size) = size

-- `category?.pricingMethod ?? 'INSPECTION_QUOTE'`
abbrev pub method_of : Option ServiceCategory → PricingMethod
method_of none = PricingMethod.inspection_quote
method_of (some c) = c.pricing_method

-- `category?.field ?? null`
abbrev pub price_of : (ServiceCategory → Option ℤ) → Option ServiceCategory → Option ℤ
price_of field none = none
price_of field (some c) = field c

-- `actuals.optionsMinor ?? 0n`
abbrev pub amount_or_zero : Option ℤ → ℤ
amount_or_zero none = pos 0
amount_or_zero (some a) = a

-- `!!actuals.quote`
abbrev pub is_given : Option QuoteTotals → Bool
is_given none = false
is_given (some q) = true

abbrev pub home_service_inputs : FareTerms → Actuals → HomeServiceInputs
home_service_inputs terms actuals = record {
  pricing_method = method_of terms.category;
  fixed_price_minor = price_of (λ c. c.fixed_price_minor) terms.category;
  starting_from_minor = price_of (λ c. c.starting_from_minor) terms.category;
  hourly_rate_minor = price_of (λ c. c.hourly_rate_minor) terms.category;
  hours = actuals.hours;
  options_minor = amount_or_zero actuals.options_minor;
  inspection_fee_minor = price_of (λ c. c.inspection_fee_minor) terms.category;
  urgency = terms.urgency;
  quote = actuals.quote;
  quote_approved = is_given actuals.quote;
}

-- The fare by the rule of each type, with the promo and the tax.
unfoldable pub final_fare : JobType → FareTerms → PricingSnapshot → Actuals → Result FareResult
final_fare JobType.ride terms snapshot actuals = do
  rule ← or_throw snapshot.rule.as_ride internal_exception
  ok (
      apply_promo_and_tax
        (compute_ride_fare rule (record {
          distance_meters = measured actuals.distance_meters terms.distance_meters;
          duration_seconds = measured actuals.duration_seconds terms.duration_seconds;
          waiting_seconds = some (or_else 0 actuals.waiting_seconds);
          surge_multiplier = snapshot.surge_multiplier;
        }))
        terms.promo_discount_minor (or_else rule.tax_percent snapshot.tax_percent))
final_fare JobType.delivery terms snapshot actuals = do
  rule ← or_throw snapshot.rule.as_delivery internal_exception
  ok (
      apply_promo_and_tax
        (compute_delivery_fare rule (record {
          distance_meters =
              delivered_distance (measured actuals.distance_meters terms.distance_meters)
                (or_else 0 terms.distance_meters);
          size = size_or_small snapshot.size;
          weight_kg = snapshot.weight_kg;
          urgency = terms.urgency;
          additional_stops = 0;
          surge_multiplier = snapshot.surge_multiplier;
        }))
        terms.promo_discount_minor (or_else rule.tax_percent snapshot.tax_percent))
final_fare _ terms snapshot actuals = do
  rule ← or_throw snapshot.rule.as_home_service internal_exception
  ok (
      apply_promo_and_tax (compute_home_service_fare rule (home_service_inputs terms actuals))
        terms.promo_discount_minor (or_else rule.tax_percent snapshot.tax_percent))

-- `finalizeFare`; the lines are those of `toBreakdown`, less the labels.
unfoldable pub finalize_fare : JobType → FareTerms → Actuals → Result FareResult
unfolding final_fare
finalize_fare type terms actuals = do
  snapshot ← or_throw terms.pricing_snapshot internal_exception
  final_fare type terms snapshot actuals
