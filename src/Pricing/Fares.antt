-- ===== src/Pricing/Fares.antt =====
-- `computeRideFare`, `computeDeliveryFare` and `computeHomeServiceFare` of
-- apps/api/src/modules/pricing/domain/fare-calculator.ts.
use tamam.Money.{Decimal, one, round_times, rounded_quotient, percent_of, multiply}
use tamam.Prelude.{
  ◌==◌, ◌&&◌, not, ◌*◌, ◌/◌, false, none, ◌+◌, ◌-◌, [], ltb, some, Bool, ◌∷◌, ℕ, Option,
}
use tamam.Prelude.Int.{◌+ℤ◌, ◌*ℤ◌, ℤ, pos, ltb_ℤ}
use tamam.Pricing.{
  FareCode, charge_if, reprice_if, clamp_surge, finish, Bill, FareResult, line, distance, time,
  waiting, minimum_fare_adjustment, service_fee, surge, package_size, weight,
}
use tamam.Shared.Enums.{JobUrgency}

-- `RidePricingRule`
pub record RidePricingRule : Type 0 where
  pub base_fare : ℕ
  pub per_km : ℕ
  pub per_minute : ℕ
  pub minimum_fare : ℕ
  pub booking_fee : ℕ
  pub zone_fee : ℕ
  pub service_fee_percent : Decimal
  pub tax_percent : Decimal
  pub waiting_per_minute : ℕ
  pub free_waiting_minutes : ℕ

-- `RideInputs`, less `scheduled`, which nothing reads.
pub record RideInputs : Type 0 where
  pub distance_meters : Decimal
  pub duration_seconds : Decimal
  pub waiting_seconds : Option Decimal
  pub surge_multiplier : Decimal

-- `roundDiv(BigInt(rate) * BigInt(Math.max(0, Math.round(measure))), unit)`
abbrev pub metered_amount : ℕ → Decimal → ℕ → ℤ
metered_amount rate measure unit =
    rounded_quotient (pos rate *ℤ pos (round_times 1 measure)) (pos unit)

-- `Math.max(0, Math.round((waitingSeconds ?? 0) / 60) - freeWaitingMinutes)`
abbrev pub waiting_billable : Option Decimal → ℕ → ℕ
waiting_billable none free_minutes = 0
waiting_billable (some seconds) free_minutes = (seconds + 30 * one) / (60 * one) - free_minutes

-- The fare for distance, time and waiting, with the surge and the minimum.
unfoldable pub ride_metered : RidePricingRule → RideInputs → Bill
unfolding charge_if reprice_if
ride_metered rule input =
    let base = pos rule.base_fare in
    let by_distance = metered_amount rule.per_km input.distance_meters 1000 in
    let by_time = metered_amount rule.per_minute input.duration_seconds 60 in
    let start : Bill = record {
      lines = line FareCode.base_fare base ∷ line distance by_distance ∷ line time by_time ∷ [];
      amount = base +ℤ by_distance +ℤ by_time;
    } in
    let billable = waiting_billable input.waiting_seconds rule.free_waiting_minutes in
    let waited =
      charge_if (ltb 0 billable && ltb 0 rule.waiting_per_minute) waiting
        (pos rule.waiting_per_minute *ℤ pos billable) start in
    let multiplier = clamp_surge input.surge_multiplier in
    let surged = reprice_if (ltb one multiplier) surge (multiply waited.amount multiplier) waited in
    let minimum = pos rule.minimum_fare in
    reprice_if (ltb_ℤ surged.amount minimum) minimum_fare_adjustment minimum surged

-- `computeRideFare`
unfoldable pub compute_ride_fare : RidePricingRule → RideInputs → FareResult
unfolding ride_metered charge_if finish
compute_ride_fare rule input =
    let metered = ride_metered rule input in
    let booked =
      charge_if (ltb 0 rule.booking_fee) FareCode.booking_fee (pos rule.booking_fee) metered in
    let zoned = charge_if (ltb 0 rule.zone_fee) FareCode.zone_fee (pos rule.zone_fee) booked in
    let served =
      charge_if (ltb 0 rule.service_fee_percent) service_fee
        (percent_of metered.amount rule.service_fee_percent) zoned in
    finish served rule.tax_percent (clamp_surge input.surge_multiplier)

pub data PackageSize : Type 0 where
  small medium large xl : PackageSize

-- `DeliveryPricingRule`; a size or an urgency without an entry is `none`.
pub record DeliveryPricingRule : Type 0 where
  pub base : ℕ
  pub per_km : ℕ
  pub per_kg_over_threshold : ℕ
  pub weight_threshold_kg : Decimal
  pub size_multipliers : PackageSize → Option Decimal
  pub urgency_surcharge_percent : JobUrgency → Option Decimal
  pub per_additional_stop : ℕ
  pub minimum_fare : ℕ
  pub booking_fee : ℕ
  pub tax_percent : Decimal

-- `DeliveryInputs`
pub record DeliveryInputs : Type 0 where
  pub distance_meters : Decimal
  pub size : PackageSize
  pub weight_kg : Option Decimal
  pub urgency : JobUrgency
  pub additional_stops : ℕ
  pub surge_multiplier : Decimal

-- `map[key] ?? fallback`
abbrev pub or_else : Decimal → Option Decimal → Decimal
or_else fallback none = fallback
or_else fallback (some x) = x

-- `weightKg !== null && weightKg > weightThresholdKg`, and `Math.ceil(weightKg - weightThresholdKg)`
abbrev pub is_heavy : Option Decimal → Decimal → Bool
is_heavy none threshold = false
is_heavy (some kg) threshold = ltb threshold kg

abbrev pub extra_kg : Option Decimal → Decimal → ℕ
extra_kg none threshold = 0
extra_kg (some kg) threshold = (kg - threshold + one - 1) / one

-- The delivery before the surge.
unfoldable pub delivery_core : DeliveryPricingRule → DeliveryInputs → Bill
unfolding charge_if reprice_if
delivery_core rule input =
    let base = pos rule.base in
    let by_distance = metered_amount rule.per_km input.distance_meters 1000 in
    let start : Bill = record {
      lines = line FareCode.base_fare base ∷ line distance by_distance ∷ [];
      amount = base +ℤ by_distance;
    } in
    let size_multiplier = or_else one (rule.size_multipliers input.size) in
    let sized =
      reprice_if (not (size_multiplier == one)) package_size (multiply start.amount size_multiplier)
        start in
    let weighed =
      charge_if
        (is_heavy input.weight_kg rule.weight_threshold_kg && ltb 0 rule.per_kg_over_threshold)
        weight
        (pos rule.per_kg_over_threshold *ℤ pos (extra_kg input.weight_kg rule.weight_threshold_kg))
        sized in
    let stopped =
      charge_if (ltb 0 input.additional_stops && ltb 0 rule.per_additional_stop)
        FareCode.additional_stops (pos rule.per_additional_stop *ℤ pos input.additional_stops)
        weighed in
    let urgency_percent = or_else 0 (rule.urgency_surcharge_percent input.urgency) in
    charge_if (ltb 0 urgency_percent) FareCode.urgency (percent_of stopped.amount urgency_percent)
      stopped

-- `computeDeliveryFare`
unfoldable pub compute_delivery_fare : DeliveryPricingRule → DeliveryInputs → FareResult
unfolding delivery_core charge_if reprice_if finish
compute_delivery_fare rule input =
    let core = delivery_core rule input in
    let multiplier = clamp_surge input.surge_multiplier in
    let surged = reprice_if (ltb one multiplier) surge (multiply core.amount multiplier) core in
    let minimum = pos rule.minimum_fare in
    let floored = reprice_if (ltb_ℤ surged.amount minimum) minimum_fare_adjustment minimum surged in
    let booked =
      charge_if (ltb 0 rule.booking_fee) FareCode.booking_fee (pos rule.booking_fee) floored in
    finish booked rule.tax_percent multiplier
