-- ===== src/Pricing/Breakdown.antt =====
-- The breakdowns of the rides and of the deliveries add up.
use tamam.Money.{one, multiply, percent_of, round_times}
use tamam.Money.Rounding.{percent_of-nonneg, multiply-nonneg, rate-nonneg, product-nonneg}
use tamam.Prelude.{refl, [], ◌∷◌, ltb, ◌&&◌, ◌==◌, not}
use tamam.Prelude.Int.{pos, ◌+ℤ◌, ◌*ℤ◌, int_laws}
use tamam.Pricing.{
  FareCode, clamp_surge, line, distance, time, waiting, surge, minimum_fare_adjustment, service_fee,
  package_size, weight,
}
use tamam.Pricing.Fares.{
  RidePricingRule, RideInputs, compute_ride_fare, ride_metered, metered_amount, waiting_billable,
  DeliveryPricingRule, DeliveryInputs, compute_delivery_fare, delivery_core, or_else, is_heavy,
  extra_kg,
}
use tamam.Pricing.Itemised.{
  IsItemised, AddsUp, charge_if-IsItemised, reprice_if-IsItemised, finish-AddsUp, sum, natural,
}

module _ (rule : RidePricingRule) (input : RideInputs) where
  ride_metered-IsItemised : IsItemised (ride_metered rule input)
  unfolding ride_metered sum
  ride_metered-IsItemised =
      let by_distance = rate-nonneg rule.per_km (round_times 1 input.distance_meters) 1000 in
      let by_time = rate-nonneg rule.per_minute (round_times 1 input.duration_seconds) 60 in
      let start : IsItemised (record {
        lines =
            line FareCode.base_fare (pos rule.base_fare)
            ∷ line distance (metered_amount rule.per_km input.distance_meters 1000)
            ∷ line time (metered_amount rule.per_minute input.duration_seconds 60)
            ∷ [];
        amount =
            pos rule.base_fare
            +ℤ metered_amount rule.per_km input.distance_meters 1000
            +ℤ metered_amount rule.per_minute input.duration_seconds 60;
      }) =
        record {
          adds_up = omega int_laws;
          plain = refl;
          payable = omega (int_laws, by_distance, by_time);
        } in
      let billable = waiting_billable input.waiting_seconds rule.free_waiting_minutes in
      let waited =
        charge_if-IsItemised (ltb 0 billable && ltb 0 rule.waiting_per_minute) waiting
          (pos rule.waiting_per_minute *ℤ pos billable) _ refl
          (λ e. product-nonneg rule.waiting_per_minute billable) start in
      let multiplier = clamp_surge input.surge_multiplier in
      let surged =
        reprice_if-IsItemised (ltb one multiplier) surge _ _ refl
          (multiply-nonneg _ multiplier waited.payable) waited in
      reprice_if-IsItemised _ minimum_fare_adjustment (pos rule.minimum_fare) _ refl
        (natural rule.minimum_fare) surged

  -- The lines of a ride's fare add up to its total, and without the tax to its subtotal; neither is
  -- negative.
  pub compute_ride_fare-AddsUp : AddsUp (compute_ride_fare rule input)
  unfolding compute_ride_fare
  compute_ride_fare-AddsUp =
      let metered = ride_metered-IsItemised in
      let booked =
        charge_if-IsItemised (ltb 0 rule.booking_fee) FareCode.booking_fee (pos rule.booking_fee) _
          refl (λ e. natural rule.booking_fee) metered in
      let zoned =
        charge_if-IsItemised (ltb 0 rule.zone_fee) FareCode.zone_fee (pos rule.zone_fee) _ refl
          (λ e. natural rule.zone_fee) booked in
      finish-AddsUp _ rule.tax_percent (clamp_surge input.surge_multiplier) (
        charge_if-IsItemised (ltb 0 rule.service_fee_percent) service_fee
          (percent_of (ride_metered rule input).amount rule.service_fee_percent) _ refl
          (λ e. percent_of-nonneg _ rule.service_fee_percent metered.payable) zoned)

module _ (rule : DeliveryPricingRule) (input : DeliveryInputs) where
  delivery_core-IsItemised : IsItemised (delivery_core rule input)
  unfolding delivery_core sum
  delivery_core-IsItemised =
      let by_distance = rate-nonneg rule.per_km (round_times 1 input.distance_meters) 1000 in
      let start : IsItemised (record {
        lines =
            line FareCode.base_fare (pos rule.base)
            ∷ line distance (metered_amount rule.per_km input.distance_meters 1000)
            ∷ [];
        amount = pos rule.base +ℤ metered_amount rule.per_km input.distance_meters 1000;
      }) =
        record {
          adds_up = omega int_laws;
          plain = refl;
          payable = omega (int_laws, by_distance);
        } in
      let size_multiplier = or_else one (rule.size_multipliers input.size) in
      let sized =
        reprice_if-IsItemised (not (size_multiplier == one)) package_size _ _ refl
          (multiply-nonneg _ size_multiplier start.payable) start in
      let extra = extra_kg input.weight_kg rule.weight_threshold_kg in
      let weighed =
        charge_if-IsItemised
          (is_heavy input.weight_kg rule.weight_threshold_kg && ltb 0 rule.per_kg_over_threshold)
          weight (pos rule.per_kg_over_threshold *ℤ pos extra) _ refl
          (λ e. product-nonneg rule.per_kg_over_threshold extra) sized in
      let stopped =
        charge_if-IsItemised (ltb 0 input.additional_stops && ltb 0 rule.per_additional_stop)
          FareCode.additional_stops (pos rule.per_additional_stop *ℤ pos input.additional_stops) _
          refl (λ e. product-nonneg rule.per_additional_stop input.additional_stops) weighed in
      let urgency_percent = or_else 0 (rule.urgency_surcharge_percent input.urgency) in
      charge_if-IsItemised (ltb 0 urgency_percent) FareCode.urgency _ _ refl
        (λ e. percent_of-nonneg _ urgency_percent stopped.payable) stopped

  -- The lines of a delivery's fare add up to its total, and without the tax to its subtotal; neither
  -- is negative.
  pub compute_delivery_fare-AddsUp : AddsUp (compute_delivery_fare rule input)
  unfolding compute_delivery_fare
  compute_delivery_fare-AddsUp =
      let multiplier = clamp_surge input.surge_multiplier in
      let core = delivery_core-IsItemised in
      let surged =
        reprice_if-IsItemised (ltb one multiplier) surge
          (multiply (delivery_core rule input).amount multiplier) _ refl
          (multiply-nonneg _ multiplier core.payable) core in
      let floored =
        reprice_if-IsItemised _ minimum_fare_adjustment (pos rule.minimum_fare) _ refl
          (natural rule.minimum_fare) surged in
      finish-AddsUp _ rule.tax_percent multiplier (
        charge_if-IsItemised (ltb 0 rule.booking_fee) FareCode.booking_fee (pos rule.booking_fee) _
          refl (λ e. natural rule.booking_fee) floored)
