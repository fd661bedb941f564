-- ===== src/Quotes/Amounts.antt =====
-- The amounts that `submit` of apps/api/src/modules/quotes/quotes.service.ts computes from the
-- items of a quote. A quantity is a decimal of at most six places, a unit price a whole number.
use tamam.Money.{Decimal, round_times, percent_of}
use tamam.Prelude.{ℕ, ltb, List, [], ◌∷◌, if◌then◌else◌}
use tamam.Prelude.Data.{Eq, discrete_eq, ◌===◌}
use tamam.Prelude.Int.{ℤ, pos, ◌+ℤ◌, ◌-ℤ◌, ltb_ℤ}
use tamam.Prelude.Lists.{filter}
use tamam.Shared.Errors.{Result, ok, validation, throw_if, ◌>>◌}

pub data QuoteItemKind : Type 0 where
  labor parts fee : QuoteItemKind

instance abbrev pub item_kind_eq : Eq QuoteItemKind
item_kind_eq = discrete_eq (hlevel)

pub record QuoteItem : Type 0 where
  pub kind : QuoteItemKind
  pub quantity : Decimal
  pub unit_price_minor : ℕ

pub record QuoteAmounts : Type 0 where
  pub labor_cost_minor : ℤ
  pub parts_cost_minor : ℤ
  pub additional_fees_minor : ℤ
  pub discount_minor : ℤ
  pub tax_minor : ℤ
  pub total_minor : ℤ

-- `BigInt(Math.round(i.quantity * i.unitPriceMinor))`
abbrev pub item_total : QuoteItem → ℤ
item_total i = pos (round_times i.unit_price_minor i.quantity)

-- `items.filter(kind).reduce(…)`
abbrev pub total_of : List QuoteItem → ℤ
total_of [] = pos 0
total_of (i ∷ rest) = item_total i +ℤ total_of rest

abbrev pub cost_of : QuoteItemKind → List QuoteItem → ℤ
cost_of kind items = total_of (filter (λ i. i.kind === kind) items)

-- `taxPercent > 0 ? percentOf(net, taxPercent) : 0n`
abbrev pub quote_tax : Decimal → ℤ → ℤ
quote_tax percent net = if ltb 0 percent then percent_of net percent else pos 0

-- The amounts, or the exception of a discount that exceeds them.
unfoldable pub amounts_of : List QuoteItem → ℤ → Decimal → Result QuoteAmounts
amounts_of items discount tax_percent =
    let labor = cost_of QuoteItemKind.labor items in
    let parts = cost_of QuoteItemKind.parts items in
    let fees = cost_of fee items in
    let net = labor +ℤ parts +ℤ fees -ℤ discount in
    let tax = quote_tax tax_percent net in
    throw_if (ltb_ℤ net (pos 0)) validation
    >> ok (record {
      labor_cost_minor = labor;
      parts_cost_minor = parts;
      additional_fees_minor = fees;
      discount_minor = discount;
      tax_minor = tax;
      total_minor = net +ℤ tax;
    })
