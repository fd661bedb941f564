-- ===== src/Chalet/SmartPricing/Tests.antt =====
-- The theorems on the price of a slot at a concrete chalet.
use tamam.Chalet.Calendar.{Interval, minute}
use tamam.Chalet.SmartPricing.{
  PricingChalet, DemandSignals, LocalTime, RateRule, ChaletQuote, conservative, day_of_week,
  time_of_day, percent_of_whole,
}
use tamam.Chalet.SmartPricing.Bounds.{IsBounded}
use tamam.Chalet.SmartPricing.Demand.{last_minute_discount_percent, occupancy_adjustment_percent}
use tamam.Chalet.SmartPricing.Quoted.{Explains, quote_slot-IsBounded, quote_slot-Explains}
use tamam.Chalet.SmartPricing.Rules.{apply_rate_rules, in_window}
use tamam.Chalet.SmartPricing.SlotQuote.{quote_slot, move_by}
use tamam.Chalet.SmartPricing.Winner.{apply_rate_rules-Decides, Decides, in_window_lem}
use tamam.Money.{rounded_quotient}
use tamam.Prelude.{ℕ, ◌+◌, ◌-◌, ◌*◌, ◌%◌, ltb, ◌≡◌, refl, true, List, [], ◌∷◌, some, none, arith}
use tamam.Prelude.Int.{pos, ◌+ℤ◌, ◌-ℤ◌, ◌*ℤ◌, floor_div}

abbrev chalet : PricingChalet
chalet = record {
  base_hourly_rate_minor = pos 10_000;
  minimum_hourly_rate_minor = pos 7_000;
  maximum_hourly_rate_minor = some (pos 20_000);
  pricing_profile = conservative;
  smart_pricing_enabled = true;
  last_minute_pricing_enabled = true;
  max_auto_discount_percent = some 20;
  target_occupancy_percent = 80;
}

abbrev slot : Interval
slot = record { start_at = 1_080 * minute; end_at = 1_170 * minute }

abbrev thursdays : RateRule
thursdays = record {
  kind = day_of_week;
  start_time = none;
  end_time = none;
  weekday = some 4;
  start_date = none;
  end_date = none;
  multiplier = some 1_300_000;
  hourly_rate_minor = none;
  priority = 5;
}

abbrev evenings : RateRule
evenings = record thursdays {
  kind = time_of_day;
  start_time = some (record { hour = 18; minute = 0 });
  end_time = some (record { hour = 2; minute = 0 });
  weekday = none;
  multiplier = some 1_200_000;
  priority = 1;
}

abbrev rules : List RateRule
rules = evenings ∷ thursdays ∷ []

abbrev thursday_evening : LocalTime
thursday_evening = record { minute_of_day = 1_080; day_of_week = 4; date = 20_260_115 }

-- A quiet week, and a gap that starts within two hours.
abbrev quiet : DemandSignals
quiet = record { occupancy_percent = 20; minutes_until_start = pos 90; is_gap = true }

quote_slot-IsBounded_example :
    (quote : ChaletQuote) × (quote_slot chalet slot rules quiet none (λ at. thursday_evening)
      ≡ some quote)
    × IsBounded chalet quote
quote_slot-IsBounded_example =
    quote_slot-IsBounded chalet slot rules quiet none (λ at. thursday_evening) refl

quote_slot-Explains_example :
    (quote : ChaletQuote) × (lift : ℕ) × (quote_slot chalet slot rules quiet none
        (λ at. thursday_evening)
      ≡ some quote)
    × Explains chalet quote lift
quote_slot-Explains_example =
    quote_slot-Explains chalet slot rules quiet none (λ at. thursday_evening) refl

apply_rate_rules-Decides_example :
    Decides
      (pos 10_000)
      rules
      thursday_evening
      (apply_rate_rules (pos 10_000) rules thursday_evening)
apply_rate_rules-Decides_example = apply_rate_rules-Decides (pos 10_000) rules thursday_evening

in_window_lem_example :
    in_window 1_320 120 60 ≡ ltb ((60 + 1440 - 1_320) % 1440) ((120 + 1440 - 1_320) % 1440)
in_window_lem_example = in_window_lem 1_320 120 60 (omega arith) (omega arith) (omega arith)

-- A quiet week, a slot that is near and a gap together cut the rate of a conservative chalet by a
-- quarter, though its profile caps discounts at 10 percent.
abbrev uncapped : PricingChalet
uncapped = record chalet { max_auto_discount_percent = none }

discount_beyond_cap :
    (quote : ChaletQuote) × (quote_slot uncapped slot [] quiet none (λ at. thursday_evening)
      ≡ some quote)
    × (quote.effective_rate ≡ pos 7_500)
unfolding quote_slot move_by ◌+ℤ◌ last_minute_discount_percent occupancy_adjustment_percent
    floor_div ◌*ℤ◌ ◌-ℤ◌ percent_of_whole rounded_quotient
discount_beyond_cap = (_, refl, refl)
