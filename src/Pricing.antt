-- ===== src/Pricing.antt =====
-- apps/api/src/modules/pricing/domain/fare-calculator.ts: fares with their breakdown. The amounts
-- of a rule are whole and not negative, as its schema has them; labels are not modelled.
mod Tests
pub mod Fares
pub mod HomeService
pub mod Itemised
pub mod Breakdown
pub mod Quoted
pub mod Applied
pub mod Final
pub mod Unquoted
use tamam.Money.{Decimal, one, percent_of, multiply, max0}
use tamam.Prelude.{ℕ, List, [], ◌∷◌, ◌++◌, Bool, true, false, if◌then◌else◌, ltb, ◌/◌, ◌+◌, ◌*◌}
use tamam.Prelude.Int.{ℤ, pos, ◌+ℤ◌, ◌-ℤ◌, ltb_ℤ, negate}
use tamam.Prelude.Lists.{filter}

-- The codes of the lines.
pub data FareCode : Type 0 where
  base_fare distance time waiting minimum_fare_adjustment booking_fee zone_fee : FareCode
  service_fee surge urgency package_size weight additional_stops inspection_fee : FareCode
  fixed_price hourly options labor parts additional_fees quote_discount promo tax : FareCode

pub record FareLine : Type 0 where
  pub code : FareCode
  pub amount_minor : ℤ

-- `FareResult`
pub record FareResult : Type 0 where
  pub total_minor : ℤ
  pub subtotal_minor : ℤ
  pub lines : List FareLine
  pub surge_multiplier : Decimal

abbrev pub line : FareCode → ℤ → FareLine
line code amount = record { code = code; amount_minor = amount }

-- The variables that the functions build up: the lines, and the amount they have reached.
pub record Bill : Type 0 where
  pub lines : List FareLine
  pub amount : ℤ

-- `if (test) { lines.push({ code, amountMinor: amount }); core += amount; }`
unfoldable pub charge_if : Bool → FareCode → ℤ → Bill → Bill
charge_if test code amount bill =
    if test
    then record { lines = bill.lines ++ line code amount ∷ []; amount = bill.amount +ℤ amount }
    else bill

-- `if (test) { lines.push({ code, amountMinor: next - core }); core = next; }`
unfoldable pub reprice_if : Bool → FareCode → ℤ → Bill → Bill
reprice_if test code next bill =
    if test
    then record { lines = bill.lines ++ line code (next -ℤ bill.amount) ∷ []; amount = next }
    else bill

-- `Math.min(Math.max(surgeMultiplier, 1), 4)`
abbrev pub clamp_surge : Decimal → Decimal
clamp_surge x =
    let at_least = if ltb x one then one else x in
    if ltb (4 * one) at_least then 4 * one else at_least

-- `taxPercent > 0 ? percentOf(amount, taxPercent) : 0n`
abbrev pub tax_on : Decimal → ℤ → ℤ
tax_on tax_percent amount = if ltb 0 tax_percent then percent_of amount tax_percent else pos 0

-- `if (tax > 0n) lines.push({ code: 'TAX', amountMinor: tax })`
abbrev pub with_tax : ℤ → List FareLine → List FareLine
with_tax amount lines = if ltb_ℤ (pos 0) amount then lines ++ line tax amount ∷ [] else lines

-- `finish`
unfoldable pub finish : Bill → Decimal → Decimal → FareResult
finish bill tax_percent surge_multiplier =
    let amount = tax_on tax_percent bill.amount in
    record {
      total_minor = bill.amount +ℤ amount;
      subtotal_minor = bill.amount;
      lines = with_tax amount bill.lines;
      surge_multiplier = surge_multiplier;
    }

-- `l.code !== 'TAX' && l.code !== 'PROMO'`
abbrev pub is_kept : FareLine → Bool
is_kept l = elim l.code [ tax ↦ false | promo ↦ false | _ ↦ true ]

-- `promoDiscountMinor > subtotal ? subtotal : max0(promoDiscountMinor)`
abbrev pub discount_of : ℤ → ℤ → ℤ
discount_of promo_discount subtotal =
    if ltb_ℤ subtotal promo_discount then subtotal else max0 promo_discount

-- `if (discount > 0n) lines.push({ code: 'PROMO', amountMinor: -discount })`
abbrev pub with_promo : ℤ → List FareLine → List FareLine
with_promo discount lines =
    if ltb_ℤ (pos 0) discount then lines ++ line promo (negate discount) ∷ [] else lines

-- `applyPromoAndTax`
unfoldable pub apply_promo_and_tax : FareResult → ℤ → Decimal → FareResult
apply_promo_and_tax result promo_discount tax_percent =
    let discount = discount_of promo_discount result.subtotal_minor in
    let taxable = result.subtotal_minor -ℤ discount in
    let amount = tax_on tax_percent taxable in
    record {
      total_minor = taxable +ℤ amount;
      subtotal_minor = result.subtotal_minor;
      lines = with_tax amount (with_promo discount (filter is_kept result.lines));
      surge_multiplier = result.surge_multiplier;
    }
