-- ===== src/Chalet/SmartPricing/SlotQuote.antt =====
-- apps/api/src/modules/chalet/domain/smart-pricing.ts: the price of one slot. The steps of
-- `quoteSlot` pass on the rate and the adjustments that it keeps in variables.
use tamam.Chalet.Calendar.{Interval, minutes_between}
use tamam.Chalet.SmartPricing.{
  PricingChalet, DemandSignals, LocalTime, RateRule, ChaletQuote, PricingAdjustment, PricingReason,
  percent_of_whole, rate_rule, high_occupancy, low_occupancy, last_minute, gap_filler,
  floor_applied, ceiling_applied,
}
use tamam.Chalet.SmartPricing.Demand.{
  occupancy_adjustment_percent, last_minute_discount_percent, gap_percent,
}
use tamam.Chalet.SmartPricing.Rules.{RuledRate, apply_rate_rules}
use tamam.Money.{rounded_quotient, round_div, clamp_min}
use tamam.Prelude.{ℕ, Bool, false, ◌&&◌, List, [], ◌∷◌, ◌++◌, Option, none, some, if◌then◌else◌}
use tamam.Prelude.Int.{ℤ, pos, negate, magnitude, ltb_ℤ, equals_ℤ, ◌+ℤ◌, ◌-ℤ◌, ◌*ℤ◌, floor_div}

-- The variables `rate` and `adjustments`.
pub record PricedRate : Type 0 where
  pub rate : ℤ
  pub adjustments : List PricingAdjustment

-- `record`: an adjustment of no percent is not recorded.
abbrev pub recorded : ℤ → PricingReason → ℤ → List PricingAdjustment → List PricingAdjustment
recorded base reason percent adjustments =
    if equals_ℤ percent (pos 0)
    then adjustments
    else adjustments
      ++ record { reason = reason; percent = percent; amount_minor = percent_of_whole base percent }
        ∷ []

-- `record(code, percent)` and `rate += percentOf(base, percent)`
unfoldable pub move_by : ℤ → PricingReason → ℤ → PricedRate → PricedRate
move_by base reason percent pricing = record {
  rate = pricing.rate +ℤ percent_of_whole base percent;
  adjustments = recorded base reason percent pricing.adjustments;
}

-- `if (percent !== 0) { record(code, percent); rate += ... }`
abbrev pub move_unless_zero : ℤ → PricingReason → ℤ → PricedRate → PricedRate
move_unless_zero base reason percent pricing =
    if equals_ℤ percent (pos 0) then pricing else move_by base reason percent pricing

-- Step 1; `none` is the `division by zero` that `roundDiv` throws.
unfoldable pub ruled_pricing : ℤ → RuledRate → Option PricedRate
ruled_pricing base ruled = elim ruled.rule [
  | none ↦ some (record { rate = ruled.rate_minor; adjustments = [] })
  | some rule ↦
      if equals_ℤ ruled.rate_minor base
      then some (record { rate = ruled.rate_minor; adjustments = [] })
      else elim (round_div ((ruled.rate_minor -ℤ base) *ℤ pos 10000) base) [
        | none ↦ none
        | some hundredths ↦ some (record {
          rate = ruled.rate_minor;
          adjustments =
              record {
                reason = rate_rule;
                percent = floor_div (hundredths +ℤ pos 50) 100;
                amount_minor = ruled.rate_minor -ℤ base;
              }
              ∷ [];
        })
      ]
]

-- Step 2.
abbrev pub occupancy_step : PricingChalet → DemandSignals → PricedRate → PricedRate
occupancy_step chalet demand pricing =
    let occupancy =
      occupancy_adjustment_percent demand.occupancy_percent chalet.target_occupancy_percent
        chalet.pricing_profile in
    move_unless_zero chalet.base_hourly_rate_minor
      (if ltb_ℤ (pos 0) occupancy then high_occupancy else low_occupancy) occupancy pricing

abbrev pub last_minute_step : PricingChalet → DemandSignals → PricedRate → PricedRate
last_minute_step chalet demand pricing =
    if chalet.last_minute_pricing_enabled
    then move_unless_zero chalet.base_hourly_rate_minor last_minute
        (last_minute_discount_percent demand.minutes_until_start chalet.pricing_profile) pricing
    else pricing

abbrev pub gap_step : PricingChalet → DemandSignals → PricedRate → PricedRate
gap_step chalet demand pricing =
    if demand.is_gap
    then move_by chalet.base_hourly_rate_minor gap_filler (gap_percent chalet.pricing_profile)
        pricing
    else pricing

unfoldable pub demand_pricing : PricingChalet → DemandSignals → PricedRate → PricedRate
demand_pricing chalet demand pricing =
    if chalet.smart_pricing_enabled
    then gap_step chalet demand
        (last_minute_step chalet demand (occupancy_step chalet demand pricing))
    else pricing

-- Step 3.
unfoldable pub offer_pricing : ℤ → Option ℤ → PricedRate → PricedRate
offer_pricing base none pricing = pricing
offer_pricing base (some percent) pricing =
    if equals_ℤ percent (pos 0)
    then pricing
    else move_by base gap_filler (negate (pos (magnitude percent))) pricing

-- Step 4: the lowest rate that the owner's cap allows.
abbrev pub deepest_rate : ℤ → ℕ → ℤ
deepest_rate base cap = base -ℤ percent_of_whole base (pos cap)

unfoldable pub capped_rate : ℤ → Option ℕ → ℤ → ℤ
capped_rate base none rate = rate
capped_rate base (some cap) rate =
    if ltb_ℤ rate base && ltb_ℤ rate (deepest_rate base cap) then deepest_rate base cap else rate

-- Step 5: an adjustment of a bound, which has no percent.
abbrev bound_adjustment : PricingReason → ℤ → PricingAdjustment
bound_adjustment reason amount = record { reason = reason; percent = pos 0; amount_minor = amount }

abbrev pub above : Option ℤ → ℤ → Bool
above none rate = false
above (some ceiling) rate = ltb_ℤ ceiling rate

unfoldable pub ceiling_pricing : Option ℤ → PricedRate → PricedRate
ceiling_pricing none pricing = pricing
ceiling_pricing (some ceiling) pricing =
    if ltb_ℤ ceiling pricing.rate
    then record {
      rate = ceiling;
      adjustments =
          pricing.adjustments ++ bound_adjustment ceiling_applied (ceiling -ℤ pricing.rate) ∷ [];
    }
    else pricing

unfoldable pub floor_pricing : ℤ → PricedRate → PricedRate
floor_pricing floor pricing = record {
  rate = clamp_min pricing.rate floor;
  adjustments =
      if ltb_ℤ pricing.rate floor
      then pricing.adjustments ++ bound_adjustment floor_applied (floor -ℤ pricing.rate) ∷ []
      else pricing.adjustments;
}

-- `hourlyToTotal`
unfoldable pub hourly_to_total : ℤ → ℤ → ℤ
hourly_to_total rate minutes = rounded_quotient (rate *ℤ minutes) (pos 60)

-- The variables after steps 2, 3 and 4.
unfoldable pub asked_pricing : PricingChalet → DemandSignals → Option ℤ → PricedRate → PricedRate
unfolding demand_pricing offer_pricing
asked_pricing chalet demand offer ruled =
    offer_pricing chalet.base_hourly_rate_minor offer (demand_pricing chalet demand ruled)

unfoldable pub capped_pricing : PricingChalet → PricedRate → PricedRate
unfolding capped_rate
capped_pricing chalet asked = record asked {
  rate = capped_rate chalet.base_hourly_rate_minor chalet.max_auto_discount_percent asked.rate;
}

-- Step 5 and the result.
unfoldable pub bounded_quote : PricingChalet → ℤ → PricedRate → ChaletQuote
unfolding ceiling_pricing floor_pricing hourly_to_total
bounded_quote chalet minutes pricing =
    let below = ceiling_pricing chalet.maximum_hourly_rate_minor pricing in
    let final = floor_pricing chalet.minimum_hourly_rate_minor below in
    record {
      base_rate = chalet.base_hourly_rate_minor;
      effective_rate = final.rate;
      duration_minutes = minutes;
      subtotal_minor = hourly_to_total final.rate minutes;
      adjustments = final.adjustments;
      clamped_to_minimum = ltb_ℤ below.rate chalet.minimum_hourly_rate_minor;
      clamped_to_maximum = above chalet.maximum_hourly_rate_minor pricing.rate;
    }

-- Steps 2 to 5, unless step 1 throws.
abbrev pub priced_slot :
    PricingChalet → DemandSignals → Option ℤ → ℤ → Option PricedRate → Option ChaletQuote
priced_slot chalet demand offer minutes none = none
priced_slot chalet demand offer minutes (some ruled) =
    some (
      bounded_quote chalet minutes
        (capped_pricing chalet (asked_pricing chalet demand offer ruled)))

-- `quoteSlot`; `none` is the error that it throws.
unfoldable pub quote_slot :
    PricingChalet
    → Interval
    → List RateRule
    → DemandSignals
    → Option ℤ
    → (ℕ → LocalTime)
    → Option ChaletQuote
unfolding ruled_pricing apply_rate_rules asked_pricing capped_pricing bounded_quote
quote_slot chalet slot rules demand offer clock =
    let base = chalet.base_hourly_rate_minor in
    priced_slot chalet demand offer (minutes_between slot.start_at slot.end_at)
      (ruled_pricing base (apply_rate_rules base rules (clock slot.start_at)))
