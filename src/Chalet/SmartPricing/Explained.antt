-- ===== src/Chalet/SmartPricing/Explained.antt =====
-- How the adjustments of a chalet's quote add up.
use tamam.Chalet.SmartPricing.{
  PricingReason, PricingAdjustment, PricingChalet, DemandSignals, LocalTime, RateRule,
  percent_of_whole, last_minute, gap_filler, high_occupancy, low_occupancy,
}
use tamam.Chalet.SmartPricing.Demand.{
  occupancy_adjustment_percent, last_minute_discount_percent, gap_percent,
}
use tamam.Chalet.SmartPricing.Rules.{RuledRate, apply_rate_rules, ruled_by}
use tamam.Chalet.SmartPricing.SlotQuote.{
  PricedRate, move_by, move_unless_zero, ruled_pricing, occupancy_step, last_minute_step, gap_step,
  demand_pricing, offer_pricing, asked_pricing,
}
use tamam.Money.{rounded_quotient, round_div}
use tamam.Prelude.{
  ◌==◌, refl, sym, ap, ◌≡◌, true, false, List, [], ◌∷◌, ◌++◌, Option, none, some, inl, inr,
  if◌then◌else◌, Bool-cases, Option-cases, arith, ◌∙◌,
}
use tamam.Prelude.Int.{
  ℤ, pos, magnitude, equals_ℤ, ltb_ℤ, ◌+ℤ◌, ◌-ℤ◌, ◌*ℤ◌, int_laws, +ℤ-zero, parts_of_eq,
}

abbrev pub total_amount : List PricingAdjustment → ℤ
total_amount [] = pos 0
total_amount (a ∷ rest) = a.amount_minor +ℤ total_amount rest

-- The base and the adjustments make the rate.
abbrev pub Accounts : ℤ → PricedRate → Type 0
Accounts base pricing = base +ℤ total_amount pricing.adjustments ≡ pricing.rate

pub total_amount-snoc :
    (xs : List PricingAdjustment) (a : PricingAdjustment)
    → total_amount (xs ++ a ∷ []) ≡ total_amount xs +ℤ a.amount_minor
total_amount-snoc [] a = omega int_laws
total_amount-snoc (x ∷ xs) a = let later = total_amount-snoc xs a in rw later (omega int_laws)

none-some {ℓ} : {A : Type ℓ} (a : A) → none ≡ some a → ⊥
none-some a h = cc

equals_ℤ-eq : (a b : ℤ) → equals_ℤ a b ≡ true → a ≡ b
equals_ℤ-eq a b h = ground arith

pub percent_of_whole-zero : (value : ℤ) → percent_of_whole value (pos 0) ≡ pos 0
unfolding percent_of_whole rounded_quotient ◌*ℤ◌
percent_of_whole-zero value = ground arith

shifted : (base total rate x : ℤ) → base +ℤ total ≡ rate → base +ℤ (total +ℤ x) ≡ rate +ℤ x
shifted base total rate x h = let parts = parts_of_eq _ _ h in omega int_laws

unmoved : (base total rate x : ℤ) → base +ℤ total ≡ rate → x ≡ pos 0 → base +ℤ total ≡ rate +ℤ x
unmoved base total rate x h zero = h ∙ sym (+ℤ-zero rate) ∙ ap (λ y. rate +ℤ y) (sym zero)

move_by-Accounts :
    (base : ℤ) (reason : PricingReason) (percent : ℤ) (pricing : PricedRate)
    → Accounts base pricing
    → Accounts base (move_by base reason percent pricing)
unfolding move_by
move_by-Accounts base reason percent pricing h = elim (Bool-cases (equals_ℤ percent (pos 0))) [
  | inl zero ↦ rw zero (
      unmoved base _ pricing.rate _ h (
        ap (percent_of_whole base) (equals_ℤ-eq percent (pos 0) zero) ∙ percent_of_whole-zero base))
  | inr other ↦
      rw other (rw (total_amount-snoc pricing.adjustments _) (shifted base _ pricing.rate _ h))
]

move_unless_zero-Accounts :
    (base : ℤ) (reason : PricingReason) (percent : ℤ) (pricing : PricedRate)
    → Accounts base pricing
    → Accounts base (move_unless_zero base reason percent pricing)
move_unless_zero-Accounts base reason percent pricing h =
    elim (Bool-cases (equals_ℤ percent (pos 0))) [
      | inl zero ↦ rw zero h
      | inr other ↦ rw other (move_by-Accounts base reason percent pricing h)
    ]

last_minute_step-Accounts :
    (chalet : PricingChalet) (demand : DemandSignals) (pricing : PricedRate)
    → Accounts chalet.base_hourly_rate_minor pricing
    → Accounts chalet.base_hourly_rate_minor (last_minute_step chalet demand pricing)
last_minute_step-Accounts chalet demand pricing h =
    elim (Bool-cases chalet.last_minute_pricing_enabled) [
      | inl on ↦ rw on (
          move_unless_zero-Accounts chalet.base_hourly_rate_minor last_minute
            (last_minute_discount_percent demand.minutes_until_start chalet.pricing_profile) pricing
            h)
      | inr off ↦ rw off h
    ]

occupancy_step-Accounts :
    (chalet : PricingChalet) (demand : DemandSignals) (pricing : PricedRate)
    → Accounts chalet.base_hourly_rate_minor pricing
    → Accounts chalet.base_hourly_rate_minor (occupancy_step chalet demand pricing)
occupancy_step-Accounts chalet demand pricing h =
    let occupancy =
      occupancy_adjustment_percent demand.occupancy_percent chalet.target_occupancy_percent
        chalet.pricing_profile in
    move_unless_zero-Accounts chalet.base_hourly_rate_minor
      (if ltb_ℤ (pos 0) occupancy then high_occupancy else low_occupancy) occupancy pricing h

gap_step-Accounts :
    (chalet : PricingChalet) (demand : DemandSignals) (pricing : PricedRate)
    → Accounts chalet.base_hourly_rate_minor pricing
    → Accounts chalet.base_hourly_rate_minor (gap_step chalet demand pricing)
gap_step-Accounts chalet demand pricing h = elim (Bool-cases demand.is_gap) [
  | inl gap ↦ rw gap (
      move_by-Accounts chalet.base_hourly_rate_minor gap_filler (gap_percent chalet.pricing_profile)
        pricing h)
  | inr other ↦ rw other h
]

demand_pricing-Accounts :
    (chalet : PricingChalet) (demand : DemandSignals) (pricing : PricedRate)
    → Accounts chalet.base_hourly_rate_minor pricing
    → Accounts chalet.base_hourly_rate_minor (demand_pricing chalet demand pricing)
unfolding demand_pricing
demand_pricing-Accounts chalet demand pricing h = elim (Bool-cases chalet.smart_pricing_enabled) [
  | inl on ↦ rw on (
      gap_step-Accounts chalet demand _ (
        last_minute_step-Accounts chalet demand (occupancy_step chalet demand pricing)
          (occupancy_step-Accounts chalet demand pricing h)))
  | inr off ↦ rw off h
]

offer_pricing-Accounts :
    (base : ℤ) (offer : Option ℤ) (pricing : PricedRate)
    → Accounts base pricing
    → Accounts base (offer_pricing base offer pricing)
unfolding offer_pricing
offer_pricing-Accounts base none pricing h = h
offer_pricing-Accounts base (some percent) pricing h =
    elim (Bool-cases (equals_ℤ percent (pos 0))) [
      | inl zero ↦ rw zero h
      | inr other ↦ rw other (move_by-Accounts base _ _ pricing h)
    ]

pub asked_pricing-Accounts :
    (chalet : PricingChalet) (demand : DemandSignals) (offer : Option ℤ) (pricing : PricedRate)
    → Accounts chalet.base_hourly_rate_minor pricing
    → Accounts chalet.base_hourly_rate_minor (asked_pricing chalet demand offer pricing)
unfolding asked_pricing
asked_pricing-Accounts chalet demand offer pricing h =
    offer_pricing-Accounts _ offer _ (demand_pricing-Accounts chalet demand pricing h)

unruled :
    (base : ℤ) (winner : Option RateRule)
    → (ruled_by base winner).rule ≡ none
    → (ruled_by base winner).rate_minor ≡ base
unruled base none h = refl
unruled base (some rule) h = absurd (none-some rule (sym h))

positive : (base : ℤ) → ltb_ℤ (pos 0) base ≡ true → magnitude base == 0 ≡ false
positive base h = ground arith

divides :
    (numerator base : ℤ)
    → ltb_ℤ (pos 0) base ≡ true
    → round_div numerator base ≡ some (rounded_quotient numerator base)
unfolding round_div
divides numerator base h = rw (positive base h) refl

ruled_rate : (base rate : ℤ) → base +ℤ (rate -ℤ base +ℤ pos 0) ≡ rate
ruled_rate base rate = omega int_laws

-- The rate of the rules, at a base rate above zero.
pub ruled_pricing-Accounts :
    (base : ℤ) (ruled : RuledRate)
    → ltb_ℤ (pos 0) base ≡ true
    → (ruled.rule ≡ none → ruled.rate_minor ≡ base)
    → (pricing : PricedRate) × (ruled_pricing base ruled ≡ some pricing) × Accounts base pricing
unfolding ruled_pricing
ruled_pricing-Accounts base ruled h plain = elim (Option-cases ruled.rule) [
  | inl e ↦ rw e (_, refl, +ℤ-zero base ∙ sym (plain e))
  | inr (rule, e) ↦ elim (Bool-cases (equals_ℤ ruled.rate_minor base)) [
    | inl same ↦ rw (e, same) (_, refl, +ℤ-zero base ∙ sym (equals_ℤ-eq ruled.rate_minor base same))
    | inr other ↦
        rw (e, other, divides ((ruled.rate_minor -ℤ base) *ℤ pos 10000) base h)
          ((_, refl, ruled_rate base ruled.rate_minor))
  ]
]

-- The price before the cap and the bounds.
pub ruled-Accounts :
    (base : ℤ) (rules : List RateRule) (now : LocalTime)
    → ltb_ℤ (pos 0) base ≡ true
    → (pricing : PricedRate) × (ruled_pricing base (apply_rate_rules base rules now) ≡ some pricing)
      × Accounts base pricing
unfolding apply_rate_rules
ruled-Accounts base rules now h = ruled_pricing-Accounts base _ h (unruled base _)
