-- ===== src/Chalet/SmartPricing/Moves.antt =====
-- How far, and which way, demand moves the price of a slot.
use tamam.Chalet.SmartPricing.{
  percent_of_whole, ProfileLimits, ChaletPricingProfile, profile_limits, conservative, balanced,
  aggressive_occupancy, custom,
}
use tamam.Chalet.SmartPricing.Demand.{
  rounded_cap, within_limits, occupancy_adjustment_percent, last_minute_discount_percent,
}
use tamam.Money.{one, percent_of, round_times}
use tamam.Money.Rounding.{pos-*ℤ}
use tamam.Prelude.{refl, ℕ, ◌*◌, ◌≤◌, ◌≡◌, arith}
use tamam.Prelude.Int.{ℤ, pos, negsuc, negate, ◌≤ℤ◌, ◌+ℤ◌, ◌-ℤ◌, ◌*ℤ◌, int_laws, floor_div}

within_limits-within :
    (low high raw : ℤ)
    → low ≤ℤ high
    → (low ≤ℤ within_limits low high raw) × (within_limits low high raw ≤ℤ high)
within_limits-within low high raw h = ground arith

within_limits_mono :
    (low high a b : ℤ) → a ≤ℤ b → within_limits low high a ≤ℤ within_limits low high b
within_limits_mono low high a b h = ground arith

floor_div_mono : (a b : ℤ) → a ≤ℤ b → floor_div a 20 ≤ℤ floor_div b 20
unfolding floor_div
floor_div_mono (pos a) (pos b) h = omega arith
floor_div_mono (pos a) (negsuc b) h = omega arith
floor_div_mono (negsuc a) (pos b) h = omega arith
floor_div_mono (negsuc a) (negsuc b) h = omega arith

-- The rounding of a whole percentage.
rounds_up : (n : ℕ) → floor_div (pos (n * 20) +ℤ pos 10) 20 ≡ pos n
unfolding floor_div ◌+ℤ◌
rounds_up n = ground arith

rounds_down : (n : ℕ) → floor_div (negate (pos (n * 20)) +ℤ pos 10) 20 ≡ negate (pos n)
unfolding floor_div ◌+ℤ◌
rounds_down n = ground arith

-- The adjustments of a profile, in the percentages that its caps allow.
abbrev pub IsWithinCaps : ChaletPricingProfile → ℤ → Type 0
IsWithinCaps profile percent =
    (negate (pos (profile_limits profile).discount_cap_percent) ≤ℤ percent)
    × (percent ≤ℤ pos (profile_limits profile).surge_cap_percent)

shifted : (a b : ℤ) → a ≤ℤ b → a +ℤ pos 10 ≤ℤ b +ℤ pos 10
shifted a b h = omega int_laws

rounded_cap-within :
    (limits : ProfileLimits) (raw : ℤ)
    → (negate (pos limits.discount_cap_percent) ≤ℤ rounded_cap limits raw)
      × (rounded_cap limits raw ≤ℤ pos limits.surge_cap_percent)
rounded_cap-within limits raw =
    let low = limits.discount_cap_percent in
    let high = limits.surge_cap_percent in
    let between = within_limits (negate (pos (low * 20))) (pos (high * 20)) raw in
    let (above, below) =
      within_limits-within (negate (pos (low * 20))) (pos (high * 20)) raw
        (spread (low * 20) (high * 20)) in
    (
      low_bound low between (floor_div_mono _ _ (shifted (negate (pos (low * 20))) between above)),
      high_bound high between (floor_div_mono _ _ (shifted between (pos (high * 20)) below)),
    )
  where
    spread : (a b : ℕ) → negate (pos a) ≤ℤ pos b
    spread a b = ground arith

    low_bound :
        (low : ℕ) (x : ℤ)
        → floor_div (negate (pos (low * 20)) +ℤ pos 10) 20 ≤ℤ floor_div (x +ℤ pos 10) 20
        → negate (pos low) ≤ℤ floor_div (x +ℤ pos 10) 20
    low_bound low x h = rw (rounds_down low) at h

    high_bound :
        (high : ℕ) (x : ℤ)
        → floor_div (x +ℤ pos 10) 20 ≤ℤ floor_div (pos (high * 20) +ℤ pos 10) 20
        → floor_div (x +ℤ pos 10) 20 ≤ℤ pos high
    high_bound high x h = rw (rounds_up high) at h

occupancy-IsWithinCaps :
    (occupancy target : ℕ) (profile : ChaletPricingProfile)
    → IsWithinCaps profile (occupancy_adjustment_percent occupancy target profile)
unfolding occupancy_adjustment_percent
occupancy-IsWithinCaps occupancy target profile =
    rounded_cap-within (profile_limits profile)
      ((pos occupancy -ℤ pos target) *ℤ pos (profile_limits profile).sensitivity_tenths)

last_minute-IsWithinCaps :
    (minutes : ℤ) (profile : ChaletPricingProfile)
    → IsWithinCaps profile (last_minute_discount_percent minutes profile)
unfolding last_minute_discount_percent
last_minute-IsWithinCaps minutes conservative = ground arith
last_minute-IsWithinCaps minutes balanced = ground arith
last_minute-IsWithinCaps minutes aggressive_occupancy = ground arith
last_minute-IsWithinCaps minutes custom = ground arith

rounded_cap_mono :
    (limits : ProfileLimits) (a b : ℤ) → a ≤ℤ b → rounded_cap limits a ≤ℤ rounded_cap limits b
rounded_cap_mono limits a b h =
    let low = negate (pos (limits.discount_cap_percent * 20)) in
    let high = pos (limits.surge_cap_percent * 20) in
    floor_div_mono _ _ (
      shifted (within_limits low high a) (within_limits low high b)
        (within_limits_mono low high a b h))

-- The sensitivity of each profile keeps the order.
scaled :
    (profile : ChaletPricingProfile) (x y : ℤ)
    → x ≤ℤ y
    → x *ℤ pos (profile_limits profile).sensitivity_tenths
      ≤ℤ y *ℤ pos (profile_limits profile).sensitivity_tenths
unfolding ◌*ℤ◌
scaled conservative x y h = ground arith
scaled balanced x y h = ground arith
scaled aggressive_occupancy x y h = ground arith
scaled custom x y h = ground arith

-- A fuller calendar never lowers the adjustment for demand.
pub occupancy_adjustment_percent_mono :
    (a b target : ℕ) (profile : ChaletPricingProfile)
    → a ≤ b
    → occupancy_adjustment_percent a target profile ≤ℤ occupancy_adjustment_percent b target profile
unfolding occupancy_adjustment_percent
occupancy_adjustment_percent_mono a b target profile h =
    let limits = profile_limits profile in
    rounded_cap_mono limits ((pos a -ℤ pos target) *ℤ pos limits.sensitivity_tenths)
      ((pos b -ℤ pos target) *ℤ pos limits.sensitivity_tenths)
      (scaled profile (pos a -ℤ pos target) (pos b -ℤ pos target) (nearer a b target h))
  where
    nearer : (a b target : ℕ) → a ≤ b → pos a -ℤ pos target ≤ℤ pos b -ℤ pos target
    nearer a b target h = omega int_laws

-- A slot that is further ahead never gets the deeper discount.
pub last_minute_discount_percent_mono :
    (a b : ℤ) (profile : ChaletPricingProfile)
    → pos 0 ≤ℤ a
    → a ≤ℤ b
    → last_minute_discount_percent a profile ≤ℤ last_minute_discount_percent b profile
unfolding last_minute_discount_percent
last_minute_discount_percent_mono a b conservative h k = ground arith
last_minute_discount_percent_mono a b balanced h k = ground arith
last_minute_discount_percent_mono a b aggressive_occupancy h k = ground arith
last_minute_discount_percent_mono a b custom h k = ground arith

-- At a whole percentage that is not negative this is the percentage of the money helpers.
percent_of_whole_lem :
    (value : ℤ) (percent : ℕ)
    → percent_of_whole value (pos percent) ≡ percent_of value (percent * one)
unfolding percent_of_whole percent_of
percent_of_whole_lem value percent =
    let points : round_times 100 (percent * one) ≡ percent * 100 = omega arith in
    rw (points, pos-*ℤ percent 100) refl
