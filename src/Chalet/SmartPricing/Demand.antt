-- ===== src/Chalet/SmartPricing/Demand.antt =====
-- apps/api/src/modules/chalet/domain/smart-pricing.ts: how far demand moves a price.
use tamam.Chalet.SmartPricing.{ChaletPricingProfile, ProfileLimits, profile_limits}
use tamam.Money.{round_times}
use tamam.Prelude.{ℕ, ◌*◌, if◌then◌else◌}
use tamam.Prelude.Int.{ℤ, pos, negate, ltb_ℤ, leb_ℤ, ◌+ℤ◌, ◌-ℤ◌, ◌*ℤ◌, floor_div}

-- `Math.max(low, Math.min(high, raw))`
abbrev pub within_limits : ℤ → ℤ → ℤ → ℤ
within_limits low high raw =
    if ltb_ℤ (if ltb_ℤ raw high then raw else high) low
    then low
    else if ltb_ℤ raw high
    then raw
    else high

-- `within_limits` and its `Math.round`, at twentieths of a percent.
abbrev pub rounded_cap : ProfileLimits → ℤ → ℤ
rounded_cap limits raw =
    floor_div
      (within_limits (negate (pos (limits.discount_cap_percent * 20)))
          (pos (limits.surge_cap_percent * 20)) raw
        +ℤ pos 10)
      20

-- `occupancyAdjustmentPercent`: the distance times a half and the sensitivity, in twentieths.
unfoldable pub occupancy_adjustment_percent : ℕ → ℕ → ChaletPricingProfile → ℤ
occupancy_adjustment_percent occupancy_percent target_percent profile =
    let limits = profile_limits profile in
    rounded_cap limits
      ((pos occupancy_percent -ℤ pos target_percent) *ℤ pos limits.sensitivity_tenths)

-- `lastMinuteDiscountPercent`
unfoldable pub last_minute_discount_percent : ℤ → ChaletPricingProfile → ℤ
last_minute_discount_percent minutes_until_start profile =
    let cap = (profile_limits profile).discount_cap_percent in
    if ltb_ℤ minutes_until_start (pos 0)
    then pos 0
    else if leb_ℤ minutes_until_start (pos 120)
    then negate (pos cap)
    else if leb_ℤ minutes_until_start (pos 360)
    then negate (pos (round_times cap 600_000))
    else if leb_ℤ minutes_until_start (pos 1440)
    then negate (pos (round_times cap 300_000))
    else pos 0

-- The discount of a gap: half of the cap, rounded.
abbrev pub gap_percent : ChaletPricingProfile → ℤ
gap_percent profile =
    negate (pos (round_times (profile_limits profile).discount_cap_percent 500_000))
