-- ===== src/Pricing/Tests.antt =====
-- The theorems on money and fares at concrete prices.
use tamam.Money.{Decimal, one}
use tamam.Prelude.{true, none, some, arith, Option, false, ◌*◌}
use tamam.Prelude.Int.{int_laws, pos}
use tamam.Pricing.{apply_promo_and_tax}
use tamam.Pricing.Applied.{apply_promo_and_tax-IsApplied, IsApplied}
use tamam.Pricing.Breakdown.{compute_ride_fare-AddsUp}
use tamam.Pricing.Fares.{compute_ride_fare, RidePricingRule, RideInputs}
use tamam.Pricing.HomeService.{
  inspection_quote, compute_home_service_fare, HomeServiceInputs, HomeServicePricingRule,
}
use tamam.Pricing.Itemised.{AddsUp}
use tamam.Pricing.Quoted.{compute_home_service_fare-AddsUp, IsPriced}
use tamam.Shared.Enums.{emergency, urgent, standard, JobUrgency}

abbrev ride_rule : RidePricingRule
ride_rule = record {
  base_fare = 500;
  per_km = 200;
  per_minute = 50;
  minimum_fare = 1500;
  booking_fee = 100;
  zone_fee = 0;
  service_fee_percent = 5 * one;
  tax_percent = 17 * one;
  waiting_per_minute = 40;
  free_waiting_minutes = 3;
}

abbrev city_ride : RideInputs
city_ride = record {
  distance_meters = 4200 * one;
  duration_seconds = 900 * one;
  waiting_seconds = some (420 * one);
  surge_multiplier = 1350000;
}

compute_ride_fare-AddsUp_example : AddsUp (compute_ride_fare ride_rule city_ride)
compute_ride_fare-AddsUp_example = compute_ride_fare-AddsUp ride_rule city_ride

abbrev by_urgency : JobUrgency → Option Decimal
by_urgency standard = none
by_urgency urgent = some (20 * one)
by_urgency emergency = some (50 * one)

abbrev home_rule : HomeServicePricingRule
home_rule = record {
  inspection_fee = 5000;
  inspection_fee_waived_on_approval = false;
  urgency_surcharge_percent = by_urgency;
  booking_fee = 300;
  tax_percent = 17 * one;
}

abbrev repair : HomeServiceInputs
repair = record {
  pricing_method = inspection_quote;
  fixed_price_minor = none;
  starting_from_minor = none;
  hourly_rate_minor = none;
  hours = none;
  options_minor = pos 250;
  inspection_fee_minor = none;
  urgency = urgent;
  quote = some (record {
    labor_minor = pos 8000;
    parts_minor = pos 3000;
    fees_minor = pos 0;
    discount_minor = pos 1000;
  });
  quote_approved = true;
}

repair-IsPriced : IsPriced repair
repair-IsPriced = record {
  fixed_price = tt;
  start = tt;
  rate = tt;
  visit_fee = tt;
  quote = record {
    labor = omega arith;
    parts = omega arith;
    fees = omega arith;
    discount = omega arith;
    covered = omega int_laws;
  };
}

compute_home_service_fare-AddsUp_example : AddsUp (compute_home_service_fare home_rule repair)
compute_home_service_fare-AddsUp_example =
    compute_home_service_fare-AddsUp home_rule repair repair-IsPriced

apply_promo_and_tax-IsApplied_example :
    IsApplied
      (compute_ride_fare ride_rule city_ride)
      (pos 700)
      (17 * one)
      (apply_promo_and_tax (compute_ride_fare ride_rule city_ride) (pos 700) (17 * one))
apply_promo_and_tax-IsApplied_example =
    apply_promo_and_tax-IsApplied (compute_ride_fare ride_rule city_ride) (pos 700) (17 * one)
      (compute_ride_fare-AddsUp ride_rule city_ride)
