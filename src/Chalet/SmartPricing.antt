-- ===== src/Chalet/SmartPricing.antt =====
-- apps/api/src/modules/chalet/domain/smart-pricing.ts: the price of one slot and the reasons for it.
-- The labels are not modelled. Percentages are whole, as chalet-pricing.service.ts and the schemas
-- of the API give them; a multiplier is a decimal of millionths. A date (yyyy-mm-dd) is the number
-- yyyymmdd, which is ordered as the text is, and a time of a rule (hh:mm) is its two numbers. What
-- `Intl.DateTimeFormat` says of an instant in the chalet's zone is a parameter.
pub mod Rules
pub mod Winner
pub mod Demand
pub mod Moves
pub mod SlotQuote
pub mod Explained
pub mod Bounds
pub mod Quoted
mod Tests
use tamam.Money.{Decimal, rounded_quotient}
use tamam.Prelude.{ℕ, Bool, List, Option}
use tamam.Prelude.Int.{ℤ, pos, ◌*ℤ◌}

pub data ChaletPricingProfile : Type 0 where
  conservative balanced aggressive_occupancy custom : ChaletPricingProfile

-- `PricingReasonCode`
pub data PricingReason : Type 0 where
  rate_rule peak_day evening morning_off_peak high_occupancy low_occupancy : PricingReason
  last_minute gap_filler long_stay floor_applied ceiling_applied : PricingReason

pub record PricingAdjustment : Type 0 where
  pub reason : PricingReason
  pub percent : ℤ
  pub amount_minor : ℤ

-- What the clock of the chalet's zone shows at an instant.
pub record LocalTime : Type 0 where
  pub minute_of_day : ℕ
  pub day_of_week : ℕ
  pub date : ℕ

-- A time of a rule, hh:mm.
pub record ClockTime : Type 0 where
  pub hour : ℕ
  pub minute : ℕ

pub data RuleKind : Type 0 where
  time_of_day day_of_week special_date : RuleKind

pub record RateRule : Type 0 where
  pub kind : RuleKind
  pub start_time : Option ClockTime
  pub end_time : Option ClockTime
  pub weekday : Option ℕ
  pub start_date : Option ℕ
  pub end_date : Option ℕ
  pub multiplier : Option Decimal
  pub hourly_rate_minor : Option ℤ
  pub priority : ℕ

pub record PricingChalet : Type 0 where
  pub base_hourly_rate_minor : ℤ
  pub minimum_hourly_rate_minor : ℤ
  pub maximum_hourly_rate_minor : Option ℤ
  pub pricing_profile : ChaletPricingProfile
  pub smart_pricing_enabled : Bool
  pub last_minute_pricing_enabled : Bool
  pub max_auto_discount_percent : Option ℕ
  pub target_occupancy_percent : ℕ

pub record DemandSignals : Type 0 where
  pub occupancy_percent : ℕ
  pub minutes_until_start : ℤ
  pub is_gap : Bool

-- `Quote`
pub record ChaletQuote : Type 0 where
  pub base_rate : ℤ
  pub effective_rate : ℤ
  pub duration_minutes : ℤ
  pub subtotal_minor : ℤ
  pub adjustments : List PricingAdjustment
  pub clamped_to_minimum : Bool
  pub clamped_to_maximum : Bool

-- An entry of `PROFILE_LIMITS`; the sensitivity in tenths.
pub record ProfileLimits : Type 0 where
  pub surge_cap_percent : ℕ
  pub discount_cap_percent : ℕ
  pub sensitivity_tenths : ℕ

-- `PROFILE_LIMITS`
abbrev pub profile_limits : ChaletPricingProfile → ProfileLimits
profile_limits conservative = record {
  surge_cap_percent = 15;
  discount_cap_percent = 10;
  sensitivity_tenths = 4;
}
profile_limits balanced = record {
  surge_cap_percent = 35;
  discount_cap_percent = 25;
  sensitivity_tenths = 10;
}
profile_limits aggressive_occupancy = record {
  surge_cap_percent = 50;
  discount_cap_percent = 40;
  sensitivity_tenths = 16;
}
profile_limits custom = record {
  surge_cap_percent = 50;
  discount_cap_percent = 50;
  sensitivity_tenths = 10;
}

-- `percentOf` at a whole percentage, which may be negative.
unfoldable pub percent_of_whole : ℤ → ℤ → ℤ
percent_of_whole value percent = rounded_quotient (value *ℤ (percent *ℤ pos 100)) (pos 10000)
