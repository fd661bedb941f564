-- ===== src/Chalet/SmartPricing/Bounds.antt =====
-- The owner's bounds on the price of a slot, and what a quote says of its steps.
use tamam.Chalet.SmartPricing.{PricingChalet, ChaletQuote}
use tamam.Chalet.SmartPricing.Explained.{Accounts, total_amount, total_amount-snoc}
use tamam.Chalet.SmartPricing.SlotQuote.{
  PricedRate, above, ceiling_pricing, floor_pricing, bounded_quote,
}
use tamam.Money.{clamp_min}
use tamam.Prelude.{
  refl, sym, ap, ◌∙◌, ◌≡◌, ◌⊎◌, true, false, Option, none, some, inl, inr, Bool-cases, arith,
}
use tamam.Prelude.Int.{ℤ, ltb_ℤ, ◌≤ℤ◌, ◌+ℤ◌, ◌-ℤ◌, int_laws, parts_of_eq}

-- A rate between the owner's bounds, with flags that say which bound made it. The floor wins over a
-- ceiling below it.
abbrev pub IsBounded : PricingChalet → ChaletQuote → Type 0
IsBounded chalet quote =
    (chalet.minimum_hourly_rate_minor ≤ℤ quote.effective_rate)
    × (((quote.clamped_to_minimum ≡ true)
          × (quote.effective_rate ≡ chalet.minimum_hourly_rate_minor))
        ⊎ ((quote.clamped_to_minimum ≡ false)
            × (quote.clamped_to_maximum ≡ true)
            × (chalet.maximum_hourly_rate_minor ≡ some quote.effective_rate))
        ⊎ ((quote.clamped_to_minimum ≡ false)
            × (quote.clamped_to_maximum ≡ false)
            × (above chalet.maximum_hourly_rate_minor quote.effective_rate ≡ false)))

floor_pricing-le : (floor : ℤ) (pricing : PricedRate) → floor ≤ℤ (floor_pricing floor pricing).rate
unfolding floor_pricing
floor_pricing-le floor pricing = at_least floor pricing.rate
  where
    at_least : (floor rate : ℤ) → floor ≤ℤ clamp_min rate floor
    at_least floor rate = ground arith

floor_pricing-ge :
    (floor : ℤ) (pricing : PricedRate) → pricing.rate ≤ℤ (floor_pricing floor pricing).rate
unfolding floor_pricing
floor_pricing-ge floor pricing = no_less floor pricing.rate
  where
    no_less : (floor rate : ℤ) → rate ≤ℤ clamp_min rate floor
    no_less floor rate = ground arith

-- Where the floor does not bite, the rate stays.
floor_pricing-keeps :
    (floor : ℤ) (pricing : PricedRate)
    → ltb_ℤ pricing.rate floor ≡ false
    → (floor_pricing floor pricing).rate ≡ pricing.rate
unfolding floor_pricing
floor_pricing-keeps floor pricing h = rw h refl

floor_pricing-clamps :
    (floor : ℤ) (pricing : PricedRate)
    → ltb_ℤ pricing.rate floor ≡ true
    → (floor_pricing floor pricing).rate ≡ floor
unfolding floor_pricing
floor_pricing-clamps floor pricing h = rw h refl

ceiling_pricing-cases :
    (most : Option ℤ) (pricing : PricedRate)
    → ((above most pricing.rate ≡ true) × (most ≡ some (ceiling_pricing most pricing).rate))
      ⊎ ((above most pricing.rate ≡ false) × ((ceiling_pricing most pricing).rate ≡ pricing.rate))
unfolding ceiling_pricing
ceiling_pricing-cases none pricing = inr (refl, refl)
ceiling_pricing-cases (some ceiling) pricing = elim (Bool-cases (ltb_ℤ ceiling pricing.rate)) [
  | inl e ↦ rw e (inl (refl, refl))
  | inr e ↦ rw e (inr (refl, refl))
]

pub bounded_quote-IsBounded :
    (chalet : PricingChalet) (minutes : ℤ) (pricing : PricedRate)
    → IsBounded chalet (bounded_quote chalet minutes pricing)
unfolding bounded_quote
bounded_quote-IsBounded chalet minutes pricing =
    let most = chalet.maximum_hourly_rate_minor in
    let floor = chalet.minimum_hourly_rate_minor in
    let below = ceiling_pricing most pricing in
    (
      floor_pricing-le floor below,
      elim (Bool-cases (ltb_ℤ below.rate floor)) [
        | inl e ↦ inl (e, floor_pricing-clamps floor below e)
        | inr e ↦
            let kept = floor_pricing-keeps floor below e in
            inr (elim (ceiling_pricing-cases most pricing) [
              | inl (over, at) ↦ inl (e, over, at ∙ ap some (sym kept))
              | inr (under, same) ↦ inr (e, under, ap (above most) (kept ∙ same) ∙ under)
            ])
      ],
    )

moved_to :
    (base total rate bound : ℤ) → base +ℤ total ≡ rate → base +ℤ (total +ℤ (bound -ℤ rate)) ≡ bound
moved_to base total rate bound h = let parts = parts_of_eq _ _ h in omega int_laws

ceiling_pricing-Accounts :
    (base : ℤ) (most : Option ℤ) (pricing : PricedRate)
    → Accounts base pricing
    → Accounts base (ceiling_pricing most pricing)
unfolding ceiling_pricing
ceiling_pricing-Accounts base none pricing h = h
ceiling_pricing-Accounts base (some ceiling) pricing h =
    elim (Bool-cases (ltb_ℤ ceiling pricing.rate)) [
      | inl e ↦
          rw e
            (rw (total_amount-snoc pricing.adjustments _) (moved_to base _ pricing.rate ceiling h))
      | inr e ↦ rw e h
    ]

floor_pricing-Accounts :
    (base floor : ℤ) (pricing : PricedRate)
    → Accounts base pricing
    → Accounts base (floor_pricing floor pricing)
unfolding floor_pricing
floor_pricing-Accounts base floor pricing h = elim (Bool-cases (ltb_ℤ pricing.rate floor)) [
  | inl e ↦
      rw e (rw (total_amount-snoc pricing.adjustments _) (moved_to base _ pricing.rate floor h))
  | inr e ↦ rw e h
]

pub bounded_quote-total :
    (base : ℤ) (chalet : PricingChalet) (minutes : ℤ) (pricing : PricedRate)
    → Accounts base pricing
    → base +ℤ total_amount (bounded_quote chalet minutes pricing).adjustments
      ≡ (bounded_quote chalet minutes pricing).effective_rate
unfolding bounded_quote
bounded_quote-total base chalet minutes pricing h =
    floor_pricing-Accounts base chalet.minimum_hourly_rate_minor
      (ceiling_pricing chalet.maximum_hourly_rate_minor pricing)
      (ceiling_pricing-Accounts base chalet.maximum_hourly_rate_minor pricing h)

le_from : (a b c : ℤ) → a ≤ℤ b → a ≡ c → c ≤ℤ b
le_from a b c h e = rw e at h

-- Only the ceiling lowers a rate.
pub bounded_quote-ge :
    (chalet : PricingChalet) (minutes : ℤ) (pricing : PricedRate)
    → (pricing.rate ≤ℤ (bounded_quote chalet minutes pricing).effective_rate)
      ⊎ ((bounded_quote chalet minutes pricing).clamped_to_maximum ≡ true)
unfolding bounded_quote
bounded_quote-ge chalet minutes pricing =
    let most = chalet.maximum_hourly_rate_minor in
    elim (ceiling_pricing-cases most pricing) [
      | inl (over, at) ↦ inr over
      | inr (under, same) ↦
          let up =
            floor_pricing-ge chalet.minimum_hourly_rate_minor (ceiling_pricing most pricing) in
          inl (
            le_from (ceiling_pricing most pricing).rate
              (floor_pricing chalet.minimum_hourly_rate_minor (ceiling_pricing most pricing)).rate
              pricing.rate up same)
    ]
