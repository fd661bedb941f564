-- ===== src/Quotes/Totals.antt =====
-- The amounts of a submitted quote against the sum of its items.
use tamam.Money.Rounding.{percent_of-nonneg}
use tamam.Money.{Decimal}
use tamam.Prelude.{arith, ◌+◌, ltb, ℕ, ◌≡◌, refl, true, false, List, [], ◌∷◌, inl, inr, Bool-cases}
use tamam.Prelude.Int.{ℤ, pos, ◌+ℤ◌, ◌-ℤ◌, ◌≤ℤ◌, ltb_ℤ, int_laws, -ℤ_parts}
use tamam.Quotes.Amounts.{
  QuoteItem, QuoteItemKind, QuoteAmounts, amounts_of, cost_of, total_of, quote_tax,
}
use tamam.Shared.Errors.{Result, ok, err, validation}

-- The three costs of a list of items.
abbrev pub all_costs : List QuoteItem → ℤ
all_costs items =
    cost_of QuoteItemKind.labor items
    +ℤ cost_of QuoteItemKind.parts items
    +ℤ cost_of QuoteItemKind.fee items

add_labor : (i a b c t : ℤ) → a +ℤ b +ℤ c ≡ t → i +ℤ a +ℤ b +ℤ c ≡ i +ℤ t
add_labor i a b c t h = rw (← h) (omega int_laws)

add_parts : (i a b c t : ℤ) → a +ℤ b +ℤ c ≡ t → a +ℤ (i +ℤ b) +ℤ c ≡ i +ℤ t
add_parts i a b c t h = rw (← h) (omega int_laws)

add_fee : (i a b c t : ℤ) → a +ℤ b +ℤ c ≡ t → a +ℤ b +ℤ (i +ℤ c) ≡ i +ℤ t
add_fee i a b c t h = rw (← h) (omega int_laws)

count_one :
    (kind : QuoteItemKind) (quantity : Decimal) (price : ℕ) (rest : List QuoteItem)
    → all_costs rest ≡ total_of rest
    → all_costs (record { kind = kind; quantity = quantity; unit_price_minor = price } ∷ rest)
      ≡ total_of (record { kind = kind; quantity = quantity; unit_price_minor = price } ∷ rest)
count_one QuoteItemKind.labor quantity price rest h = add_labor _ _ _ _ _ h
count_one QuoteItemKind.parts quantity price rest h = add_parts _ _ _ _ _ h
count_one QuoteItemKind.fee quantity price rest h = add_fee _ _ _ _ _ h

-- Every item is counted once.
pub all_costs-total : (items : List QuoteItem) → all_costs items ≡ total_of items
unfolding ◌+ℤ◌
all_costs-total [] = refl
all_costs-total (i ∷ rest) =
    count_one i.kind i.quantity i.unit_price_minor rest (all_costs-total rest)

-- The amounts of a bill with these items, this discount and this tax rate.
pub record IsBill (items : List QuoteItem) (discount : ℤ) (percent : Decimal) (bill : QuoteAmounts)
    : Type 0 where
  pub items_counted :
      bill.labor_cost_minor +ℤ bill.parts_cost_minor +ℤ bill.additional_fees_minor ≡ total_of items
  pub discounted : bill.discount_minor ≡ discount
  pub covered : discount ≤ℤ total_of items
  pub taxed : bill.tax_minor ≡ quote_tax percent (total_of items -ℤ discount)
  pub adds_up : bill.total_minor +ℤ discount ≡ total_of items +ℤ bill.tax_minor
  pub payable : pos 0 ≤ℤ bill.total_minor

abbrev pub Bills : List QuoteItem → ℤ → Decimal → Result QuoteAmounts → Type 0
Bills items discount percent (ok bill) = IsBill items discount percent bill
Bills items discount percent (err e) = (ltb_ℤ (total_of items) discount ≡ true) × (e ≡ validation)

ltb-shift : (x y z w : ℕ) → x + w ≡ z + y → ltb x y ≡ ltb z w
ltb-shift x y z w h = ground arith

at_most : (a b : ℤ) → ltb_ℤ a b ≡ false → b ≤ℤ a
at_most a b h = ground arith

left_over : (t d : ℤ) → d ≤ℤ t → pos 0 ≤ℤ t -ℤ d
left_over t d h = omega int_laws

ltb-minus : (t d : ℤ) → ltb_ℤ (t -ℤ d) (pos 0) ≡ ltb_ℤ t d
ltb-minus t d = let same = -ℤ_parts t d in ltb-shift _ _ _ _ (omega arith)

taxed_payable : (percent : Decimal) (net : ℤ) → pos 0 ≤ℤ net → pos 0 ≤ℤ net +ℤ quote_tax percent net
taxed_payable percent net h = elim (Bool-cases (ltb 0 percent)) [
  | inl e ↦ let more = percent_of-nonneg net percent h in rw e (omega int_laws)
  | inr e ↦ rw e (omega int_laws)
]

re_add : (t d x : ℤ) → t -ℤ d +ℤ x +ℤ d ≡ t +ℤ x
re_add t d x = omega int_laws

-- The amounts of a submitted quote: every item is in exactly one of the costs of labour, parts and
-- fees; the tax is on what is left after the discount; total and discount make up the items and
-- the tax; and the total is not negative. A discount above the sum of the items, and only that, is refused with
-- VALIDATION_FAILED.
pub amounts_of-Bills :
    (items : List QuoteItem) (discount : ℤ) (percent : Decimal)
    → Bills items discount percent (amounts_of items discount percent)
unfolding amounts_of
amounts_of-Bills items discount percent =
    rw (all_costs-total items, ltb-minus (total_of items) discount)
      (elim (Bool-cases (ltb_ℤ (total_of items) discount)) [
        | inl e ↦ rw e (e, refl)
        | inr e ↦ rw e (record {
          items_counted = all_costs-total items;
          discounted = refl;
          covered = at_most (total_of items) discount e;
          taxed = refl;
          adds_up = re_add _ _ _;
          payable =
              taxed_payable percent _
                (left_over (total_of items) discount (at_most (total_of items) discount e));
        })
      ])
