-- ===== src/Pricing/Quoted.antt =====
-- The breakdown of a home service adds up, its quote's discount included.
use tamam.Money.{max0, multiply, one}
use tamam.Money.Rounding.{percent_of-nonneg, multiply-nonneg}
use tamam.Prelude.{
  ◌∙◌, sym, arith, Bool, ℕ, refl, ltb, ◌&&◌, not, ◌≡◌, true, false, Option, none, some, inl, inr,
  Bool-cases, List,
}
use tamam.Prelude.Int.{+ℤ-zero, parts_of_eq, negate, pos, ℤ, ◌+ℤ◌, ◌-ℤ◌, ◌≤ℤ◌, ltb_ℤ, int_laws}
use tamam.Prelude.Lists.{filter}
use tamam.Pricing.{
  options, quote_discount, additional_fees, Bill, FareLine, is_kept, FareCode, line,
}
use tamam.Pricing.Fares.{or_else}
use tamam.Pricing.HomeService.{
  quote_bill, core_of, line_if, custom_quote, starting_from, inspection_quote, fixed,
  HomeServicePricingRule, HomeServiceInputs, QuoteTotals, PricingMethod, inspection_of, visit,
  one_line, hours_of, by_method, home_core, compute_home_service_fare,
}
use tamam.Pricing.Itemised.{
  not_positive, filter-append, sum-append, IsItemised, AddsUp, charge_if-IsItemised, finish-AddsUp,
  sum, natural,
}

abbrev pub Amount : Option ℤ → Type 0
Amount none = Unit
Amount (some a) = pos 0 ≤ℤ a

-- No amount of the quote is negative, and the discount is at most the rest, as `QuotesService`
-- requires of a quote that is submitted.
pub record IsQuote (q : QuoteTotals) : Type 0 where
  pub labor : pos 0 ≤ℤ q.labor_minor
  pub parts : pos 0 ≤ℤ q.parts_minor
  pub fees : pos 0 ≤ℤ q.fees_minor
  pub discount : pos 0 ≤ℤ q.discount_minor
  pub covered : q.discount_minor ≤ℤ q.labor_minor +ℤ q.parts_minor +ℤ q.fees_minor

abbrev pub Quotes : Option QuoteTotals → Type 0
Quotes none = Unit
Quotes (some q) = IsQuote q

-- The amounts that the home service gets are not negative.
pub record IsPriced (input : HomeServiceInputs) : Type 0 where
  pub fixed_price : Amount input.fixed_price_minor
  pub start : Amount input.starting_from_minor
  pub rate : Amount input.hourly_rate_minor
  pub visit_fee : Amount input.inspection_fee_minor
  pub quote : Quotes input.quote

one_line-IsItemised :
    (code : FareCode) (a : ℤ)
    → is_kept (line code a) ≡ true
    → pos 0 ≤ℤ a
    → IsItemised (one_line code a)
unfolding sum
one_line-IsItemised code a keep h = record {
  adds_up = omega int_laws;
  plain = rw keep refl;
  payable = h;
}

inspection_of-nonneg :
    (given : Option ℤ) (fee : ℕ) → Amount given → pos 0 ≤ℤ inspection_of given fee
inspection_of-nonneg none fee h = natural fee
inspection_of-nonneg (some a) fee h = h

line_if-sum : (code : FareCode) (a : ℤ) → pos 0 ≤ℤ a → sum (line_if (ltb_ℤ (pos 0) a) code a) ≡ a
unfolding sum
line_if-sum code a h = elim (Bool-cases (ltb_ℤ (pos 0) a)) [
  | inl e ↦ rw e (omega int_laws)
  | inr n ↦ rw n (sym (not_positive a h n))
]

negate-eq : (d : ℤ) → negate d ≡ pos 0 -ℤ d
unfolding ◌-ℤ◌
negate-eq d = ground arith

discount_line-sum :
    (d : ℤ) → pos 0 ≤ℤ d → sum (line_if (ltb_ℤ (pos 0) d) quote_discount (negate d)) ≡ pos 0 -ℤ d
unfolding sum
discount_line-sum d h = elim (Bool-cases (ltb_ℤ (pos 0) d)) [
  | inl e ↦ rw e (+ℤ-zero (negate d) ∙ negate-eq d)
  | inr n ↦ rw n (omega (int_laws, parts_of_eq d (pos 0) (not_positive d h n)))
]

line_if-kept :
    (test : Bool) (code : FareCode) (a : ℤ)
    → is_kept (line code a) ≡ true
    → filter is_kept (line_if test code a) ≡ line_if test code a
line_if-kept true code a h = rw h refl
line_if-kept false code a h = refl

visit-IsItemised : (a : ℤ) → pos 0 ≤ℤ a → IsItemised (visit a)
visit-IsItemised a h = record {
  adds_up = line_if-sum FareCode.inspection_fee a h;
  plain = line_if-kept (ltb_ℤ (pos 0) a) FareCode.inspection_fee a refl;
  payable = h;
}

by_method-IsItemised :
    (input : HomeServiceInputs) (a : ℤ) (method : PricingMethod) (price rate start : Option ℤ)
    → pos 0 ≤ℤ a
    → Amount price
    → Amount rate
    → Amount start
    → IsItemised (by_method input a method price rate start)
by_method-IsItemised input a fixed (some b) rate start h p r s = one_line-IsItemised _ b refl p
by_method-IsItemised input a fixed none rate start h p r s = visit-IsItemised a h
by_method-IsItemised input a inspection_quote price rate start h p r s = visit-IsItemised a h
by_method-IsItemised input a PricingMethod.hourly price (some b) start h p r s =
    one_line-IsItemised _ (multiply b (hours_of input.hours)) refl
      (multiply-nonneg b (hours_of input.hours) r)
by_method-IsItemised input a PricingMethod.hourly price none start h p r s = visit-IsItemised a h
by_method-IsItemised input a starting_from price rate (some b) h p r s =
    one_line-IsItemised _ b refl s
by_method-IsItemised input a starting_from price rate none h p r s = visit-IsItemised a h
by_method-IsItemised input a custom_quote price rate start h p r s = visit-IsItemised a h

max0-eq : (a : ℤ) → pos 0 ≤ℤ a → max0 a ≡ a
max0-eq a h = let above : ltb_ℤ a (pos 0) ≡ false = ground arith in rw above refl

quote_bill-IsItemised : (q : QuoteTotals) → IsQuote q → IsItemised (quote_bill q)
unfolding sum
quote_bill-IsItemised q k = record {
  adds_up =
      rw
        (
          sum-append fee_lines discount_lines,
          line_if-sum additional_fees q.fees_minor k.fees,
          discount_line-sum q.discount_minor k.discount,
          max0-eq rest enough,
        )
        (omega int_laws);
  plain =
      rw
        (
          filter-append fee_lines discount_lines,
          line_if-kept (ltb_ℤ (pos 0) q.fees_minor) additional_fees q.fees_minor refl,
          line_if-kept (ltb_ℤ (pos 0) q.discount_minor) quote_discount (negate q.discount_minor)
              refl,
        )
        refl;
  payable = rw (max0-eq rest enough) enough;
}
  where
    fee_lines : List FareLine
    fee_lines = line_if (ltb_ℤ (pos 0) q.fees_minor) additional_fees q.fees_minor

    discount_lines : List FareLine
    discount_lines =
        line_if (ltb_ℤ (pos 0) q.discount_minor) quote_discount (negate q.discount_minor)

    rest : ℤ
    rest = q.labor_minor +ℤ q.parts_minor +ℤ q.fees_minor -ℤ q.discount_minor

    enough : pos 0 ≤ℤ rest
    enough = omega (int_laws, k.covered)

core_of-IsItemised :
    (rule : HomeServicePricingRule) (a : ℤ) (bill : Bill) (q : Option QuoteTotals) (approved : Bool)
    → pos 0 ≤ℤ a
    → IsItemised bill
    → Quotes q
    → IsItemised (core_of rule a bill q approved)
core_of-IsItemised rule a bill (some q) true h b k =
    charge_if-IsItemised (not rule.inspection_fee_waived_on_approval && ltb_ℤ (pos 0) a)
      FareCode.inspection_fee a _ refl (λ e. h) (quote_bill-IsItemised q k)
core_of-IsItemised rule a bill (some q) false h b k = b
core_of-IsItemised rule a bill none approved h b k = b

home_core-IsItemised :
    (rule : HomeServicePricingRule) (input : HomeServiceInputs)
    → IsPriced input
    → IsItemised (home_core rule input)
unfolding home_core
home_core-IsItemised rule input h =
    let fee = inspection_of-nonneg input.inspection_fee_minor rule.inspection_fee h.visit_fee in
    core_of-IsItemised rule _ _ input.quote input.quote_approved fee
      (by_method-IsItemised input _ input.pricing_method _ _ _ fee h.fixed_price h.rate h.start)
      h.quote

-- The lines of a home service's fare add up to its total, and without the tax to its subtotal, and
-- neither is negative, if no amount it gets is negative and the discount of a quote is at most
-- its labour, parts and fees.
pub compute_home_service_fare-AddsUp :
    (rule : HomeServicePricingRule) (input : HomeServiceInputs)
    → IsPriced input
    → AddsUp (compute_home_service_fare rule input)
unfolding compute_home_service_fare
compute_home_service_fare-AddsUp rule input h =
    let core = home_core-IsItemised rule input h in
    let extended =
      charge_if-IsItemised (ltb_ℤ (pos 0) input.options_minor) options input.options_minor _ refl
        (λ e. ground arith) core in
    let urgency_percent = or_else 0 (rule.urgency_surcharge_percent input.urgency) in
    let urged =
      charge_if-IsItemised _ FareCode.urgency _ _ refl
        (λ e. percent_of-nonneg _ urgency_percent extended.payable) extended in
    finish-AddsUp _ rule.tax_percent one (
      charge_if-IsItemised (ltb 0 rule.booking_fee) FareCode.booking_fee (pos rule.booking_fee) _
        refl (λ e. natural rule.booking_fee) urged)
