-- ===== src/Chalet/SmartPricing/Quoted.antt =====
-- What `quoteSlot` returns.
use tamam.Chalet.Calendar.{Interval, minutes_between}
use tamam.Chalet.SmartPricing.{
  PricingChalet, DemandSignals, LocalTime, RateRule, ChaletQuote, percent_of_whole,
}
use tamam.Chalet.SmartPricing.Bounds.{
  IsBounded, bounded_quote-IsBounded, bounded_quote-total, bounded_quote-ge,
}
use tamam.Chalet.SmartPricing.Explained.{
  Accounts, total_amount, ruled-Accounts, asked_pricing-Accounts,
}
use tamam.Chalet.SmartPricing.Rules.{apply_rate_rules}
use tamam.Chalet.SmartPricing.SlotQuote.{
  PricedRate, deepest_rate, capped_rate, ruled_pricing, asked_pricing, capped_pricing,
  bounded_quote, priced_slot, quote_slot,
}
use tamam.Money.Rounding.{pos-*ℤ, rounded_quotient-pos}
use tamam.Prelude.{
  ◌*◌, if◌then◌else◌, ℕ, refl, sym, ap, ◌∙◌, ◌≡◌, ◌⊎◌, Bool, true, List, Option, none, some, inl,
  inr, Bool-cases, arith, ◌&&◌,
}
use tamam.Prelude.Int.{ℤ, pos, negsuc, pos_part, ltb_ℤ, ◌≤ℤ◌, ◌+ℤ◌, ◌-ℤ◌, int_laws, parts_of_eq}

-- The call returns what step 5 makes of the steps before it.
returned :
    (chalet : PricingChalet) (slot : Interval) (rules : List RateRule) (demand : DemandSignals)
    (offer : Option ℤ) (clock : ℕ → LocalTime) (ruled : PricedRate)
    → ruled_pricing chalet.base_hourly_rate_minor
        (apply_rate_rules chalet.base_hourly_rate_minor rules (clock slot.start_at))
      ≡ some ruled
    → quote_slot chalet slot rules demand offer clock
      ≡ some (
          bounded_quote chalet
            (minutes_between slot.start_at slot.end_at)
            (capped_pricing chalet (asked_pricing chalet demand offer ruled)))
unfolding quote_slot
returned chalet slot rules demand offer clock ruled h =
    ap (priced_slot chalet demand offer (minutes_between slot.start_at slot.end_at)) h

≤ℤ_trans : (a b c : ℤ) → a ≤ℤ b → b ≤ℤ c → a ≤ℤ c
≤ℤ_trans a b c h k = omega arith

-- What the owner's cap adds to a rate.
capped_rate-lift :
    (base : ℤ) (most : Option ℕ) (rate : ℤ)
    → (lift : ℕ) × (capped_rate base most rate ≡ rate +ℤ pos lift)
      × ((lift ≡ 0) ⊎ ((cap : ℕ) × (most ≡ some cap)))
unfolding capped_rate
capped_rate-lift base none rate = (0, omega int_laws, inl refl)
capped_rate-lift base (some cap) rate =
    elim (Bool-cases (ltb_ℤ rate base && ltb_ℤ rate (deepest_rate base cap))) [
      | inl e ↦ rw e (_, raised rate (deepest_rate base cap) (ltb_ℤ rate base) e, inr (cap, refl))
      | inr e ↦ rw e (0, omega int_laws, inl refl)
    ]
  where
    raised :
        (rate to : ℤ) (low : Bool)
        → low && ltb_ℤ rate to ≡ true
        → to ≡ rate +ℤ pos (pos_part (to -ℤ rate))
    raised rate to low h = grind int_laws

lifted-Accounts :
    (base : ℤ) (lift : ℕ) (chalet : PricingChalet) (asked : PricedRate)
    → Accounts base asked
    → capped_rate chalet.base_hourly_rate_minor chalet.max_auto_discount_percent asked.rate
      ≡ asked.rate +ℤ pos lift
    → Accounts (base +ℤ pos lift) (capped_pricing chalet asked)
unfolding capped_pricing
lifted-Accounts base lift chalet asked made raised =
    moved base (pos lift) _ asked.rate made ∙ sym raised
  where
    moved : (base x total rate : ℤ) → base +ℤ total ≡ rate → base +ℤ x +ℤ total ≡ rate +ℤ x
    moved base x total rate h = let parts = parts_of_eq _ _ h in omega int_laws

-- The share of a base rate above zero is not negative.
percent_of_whole-pos :
    (base : ℤ) (cap : ℕ) → ltb_ℤ (pos 0) base ≡ true → pos 0 ≤ℤ percent_of_whole base (pos cap)
unfolding percent_of_whole
percent_of_whole-pos (negsuc n) cap h = ground arith
percent_of_whole-pos (pos n) cap h =
    rw (pos-*ℤ cap 100, pos-*ℤ n (cap * 100), rounded_quotient-pos (n * (cap * 100)) 10000)
      (omega arith)

capped_pricing-deepest :
    (chalet : PricingChalet) (asked : PricedRate) (cap : ℕ)
    → chalet.max_auto_discount_percent ≡ some cap
    → pos 0 ≤ℤ percent_of_whole chalet.base_hourly_rate_minor (pos cap)
    → deepest_rate chalet.base_hourly_rate_minor cap ≤ℤ (capped_pricing chalet asked).rate
unfolding capped_pricing capped_rate
capped_pricing-deepest chalet asked cap h share = rw h (
    no_deeper chalet.base_hourly_rate_minor
      (percent_of_whole chalet.base_hourly_rate_minor (pos cap)) asked.rate share)
  where
    no_deeper :
        (base share rate : ℤ)
        → pos 0 ≤ℤ share
        → base -ℤ share
          ≤ℤ (if ltb_ℤ rate base && ltb_ℤ rate (base -ℤ share) then base -ℤ share else rate)
    no_deeper base share rate h = grind int_laws

-- A quote whose adjustments, and what the owner's cap on discounts gives back, make its rate out of
-- the base rate.
abbrev pub Explains : PricingChalet → ChaletQuote → ℕ → Type 0
Explains chalet quote lift =
    (chalet.base_hourly_rate_minor +ℤ pos lift +ℤ total_amount quote.adjustments
      ≡ quote.effective_rate)
    × ((lift ≡ 0) ⊎ ((cap : ℕ) × (chalet.max_auto_discount_percent ≡ some cap)))

module _ (chalet : PricingChalet) (slot : Interval) (rules : List RateRule) (demand : DemandSignals)
    (offer : Option ℤ) (clock : ℕ → LocalTime)
    (positive : ltb_ℤ (pos 0) chalet.base_hourly_rate_minor ≡ true) where
  -- At a base rate above zero quoteSlot returns a quote. Its rate is at least the owner's minimum;
  -- it is the minimum where the quote says that it was clamped to it, else the maximum where it
  -- says that, else within the maximum.
  pub quote_slot-IsBounded :
      (quote : ChaletQuote) × (quote_slot chalet slot rules demand offer clock ≡ some quote)
      × IsBounded chalet quote
  quote_slot-IsBounded =
      let (ruled, r, _) =
        ruled-Accounts chalet.base_hourly_rate_minor rules (clock slot.start_at) positive in
      (_, returned chalet slot rules demand offer clock ruled r, bounded_quote-IsBounded chalet _ _)

  -- At a base rate above zero quoteSlot returns a quote whose adjustments add up from the base rate
  -- to its rate but for a lift that is not negative, and that is 0 unless the owner has set a cap on
  -- automatic discounts.
  pub quote_slot-Explains :
      (quote : ChaletQuote) × (lift : ℕ) × (quote_slot chalet slot rules demand offer clock
        ≡ some quote)
      × Explains chalet quote lift
  quote_slot-Explains =
      let base = chalet.base_hourly_rate_minor in
      let (ruled, r, sums) = ruled-Accounts base rules (clock slot.start_at) positive in
      let asked = asked_pricing chalet demand offer ruled in
      let (lift, raised, by) = capped_rate-lift base chalet.max_auto_discount_percent asked.rate in
      let made = asked_pricing-Accounts chalet demand offer ruled sums in
      (
        _,
        lift,
        returned chalet slot rules demand offer clock ruled r,
        (
          bounded_quote-total (base +ℤ pos lift) chalet (minutes_between slot.start_at slot.end_at)
              (capped_pricing chalet asked) (lifted-Accounts base lift chalet asked made raised),
          by,
        ),
      )

  -- At a base rate above zero and with an owner's cap on automatic discounts quoteSlot returns a
  -- quote whose rate is at least the base rate less the cap's share of it, unless the owner's maximum
  -- made the rate.
  pub quote_slot-deepest :
      (cap : ℕ)
      → chalet.max_auto_discount_percent ≡ some cap
      → (quote : ChaletQuote) × (quote_slot chalet slot rules demand offer clock ≡ some quote)
        × ((deepest_rate chalet.base_hourly_rate_minor cap ≤ℤ quote.effective_rate)
            ⊎ (quote.clamped_to_maximum ≡ true))
  quote_slot-deepest cap h =
      let base = chalet.base_hourly_rate_minor in
      let (ruled, r, _) = ruled-Accounts base rules (clock slot.start_at) positive in
      let asked = asked_pricing chalet demand offer ruled in
      let minutes = minutes_between slot.start_at slot.end_at in
      let deep =
        capped_pricing-deepest chalet asked cap h (percent_of_whole-pos base cap positive) in
      (
        _,
        returned chalet slot rules demand offer clock ruled r,
        elim (bounded_quote-ge chalet minutes (capped_pricing chalet asked)) [
          | inl up ↦ inl (
              ≤ℤ_trans (deepest_rate base cap) (capped_pricing chalet asked).rate
                (bounded_quote chalet minutes (capped_pricing chalet asked)).effective_rate deep up)
          | inr over ↦ inr over
        ],
      )
