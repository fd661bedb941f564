-- ===== src/Money.antt =====
-- apps/api/src/common/utils/money.ts: integer money. A fractional `number` (a percentage, a
-- multiplier, metres) that is not negative is a count of millionths; conversion of a double to
-- such a decimal, and decimals beyond six places, are not modelled.
pub mod Rounding
use tamam.Prelude.{
  ℕ, ◌+◌, ◌*◌, ◌/◌, ◌-◌, Bool, true, false, Option, none, some, not, if◌then◌else◌, ◌==◌,
}
use tamam.Prelude.Int.{ℤ, pos, negate, magnitude, ltb_ℤ, ◌*ℤ◌}

-- A number that is not negative, in millionths.
abbrev pub Decimal : Type 0
Decimal = ℕ

abbrev pub one : Decimal
one = 1000000

-- `Math.round(x * scale)`
abbrev pub round_times : ℕ → Decimal → ℕ
round_times scale x = (x * scale + 500000) / one

-- `a !== b` on Booleans.
abbrev pub differs : Bool → Bool → Bool
differs true b = not b
differs false b = b

-- `negative ? -q : q`
abbrev pub with_sign : Bool → ℕ → ℤ
with_sign negative q = if negative then negate (pos q) else pos q

-- `roundDiv`, past its guard.
unfoldable pub rounded_quotient : ℤ → ℤ → ℤ
rounded_quotient numerator denominator =
    let negative = differs (ltb_ℤ numerator (pos 0)) (ltb_ℤ denominator (pos 0)) in
    let n = magnitude numerator in
    let d = magnitude denominator in with_sign negative ((n + d / 2) / d)

-- `roundDiv`; `none` is `throw new Error('division by zero')`.
unfoldable pub round_div : ℤ → ℤ → Option ℤ
round_div numerator denominator =
    if magnitude denominator == 0 then none else some (rounded_quotient numerator denominator)

-- `percentOf`; its `roundDiv` never throws.
unfoldable pub percent_of : ℤ → Decimal → ℤ
percent_of value percent = rounded_quotient (value *ℤ pos (round_times 100 percent)) (pos 10000)

-- `multiply`
unfoldable pub multiply : ℤ → Decimal → ℤ
multiply value multiplier =
    rounded_quotient (value *ℤ pos (round_times 10000 multiplier)) (pos 10000)

-- `max0`
abbrev pub max0 : ℤ → ℤ
max0 v = if ltb_ℤ v (pos 0) then pos 0 else v

-- `clampMin`
abbrev pub clamp_min : ℤ → ℤ → ℤ
clamp_min v min = if ltb_ℤ v min then min else v
