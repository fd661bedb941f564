-- ===== src/Pricing/Applied.antt =====
-- What `applyPromoAndTax` of apps/api/src/modules/pricing/domain/fare-calculator.ts makes of a fare,
-- line by line.
use tamam.Money.{percent_of}
use tamam.Money.Rounding.{percent_of-pos}
use tamam.Prelude.{
  ℕ, ltb, ◌≡◌, refl, sym, ap, ◌∙◌, Bool, true, false, List, [], ◌∷◌, ◌++◌, ◌⊎◌, inl, inr,
  Bool-cases, if◌then◌else◌, arith,
}
use tamam.Prelude.Int.{ℤ, pos, negsuc, negate, ◌+ℤ◌, ◌-ℤ◌, ◌≤ℤ◌, ltb_ℤ, int_laws, +ℤ-zero}
use tamam.Prelude.Lists.{filter}
use tamam.Pricing.{
  FareResult, FareLine, FareCode, line, is_kept, apply_promo_and_tax, discount_of, tax_on, with_tax,
  with_promo,
}
use tamam.Pricing.Itemised.{
  sum, AddsUp, apply_promo_and_tax-AddsUp, not_positive, negate_add, discount_of-bounds,
  filter-idempotent, with_tax-kept, with_promo-kept, tax_on-nonneg,
}

abbrev pub is_promo : FareLine → Bool
is_promo l = elim l.code [ FareCode.promo ↦ true | _ ↦ false ]

abbrev pub is_tax : FareLine → Bool
is_tax l = elim l.code [ FareCode.tax ↦ true | _ ↦ false ]

-- The discount of a promo on a subtotal: nothing, the promo, or all of the subtotal.
abbrev pub Discount : ℤ → ℤ → ℤ → Type 0
Discount promo subtotal discount =
    ((promo ≤ℤ pos 0) × (discount ≡ pos 0))
    ⊎ (((pos 0 ≤ℤ promo) × (promo ≤ℤ subtotal) × (discount ≡ promo))
        ⊎ ((subtotal ≤ℤ promo) × (discount ≡ subtotal)))

-- What holds of the fare after a promo and the tax.
pub record IsApplied (fare : FareResult) (promo : ℤ) (tax_percent : ℕ) (after : FareResult)
    : Type 0 where
  pub adds_up : AddsUp after
  pub subtotal : after.subtotal_minor ≡ fare.subtotal_minor
  pub surge : after.surge_multiplier ≡ fare.surge_multiplier
  pub kept : filter is_kept after.lines ≡ filter is_kept fare.lines
  pub discount : ℤ
  pub discounted : Discount promo fare.subtotal_minor discount
  pub promo_lines : sum (filter is_promo after.lines) ≡ pos 0 -ℤ discount
  pub tax_lines :
      sum (filter is_tax after.lines) ≡ percent_of (fare.subtotal_minor -ℤ discount) tax_percent
  pub total :
      after.total_minor
      ≡ fare.subtotal_minor -ℤ discount +ℤ percent_of (fare.subtotal_minor -ℤ discount) tax_percent

discount_of-Discount : (p s : ℤ) → pos 0 ≤ℤ s → Discount p s (discount_of p s)
discount_of-Discount p s h = elim (Bool-cases (ltb_ℤ s p)) [
  | inl e ↦ rw e (inr (inr (ground arith, refl)))
  | inr e ↦ elim (Bool-cases (ltb_ℤ p (pos 0))) [
    | inl n ↦ rw (e, n) (inl (ground arith, refl))
    | inr n ↦ rw (e, n) (inr (inl (ground arith, ground arith, refl)))
  ]
]

untaxed : (v : ℤ) → pos 0 ≤ℤ v → percent_of v 0 ≡ pos 0
untaxed (pos v) h = rw (percent_of-pos v 0) (ap pos (omega arith))
untaxed (negsuc v) h = absurd (omega arith)

tax_on-percent_of : (p : ℕ) (v : ℤ) → pos 0 ≤ℤ v → tax_on p v ≡ percent_of v p
tax_on-percent_of p v h = elim (Bool-cases (ltb 0 p)) [
  | inl e ↦ rw e refl
  | inr e ↦ let none' : p ≡ 0 = ground arith in rw none' (sym (untaxed v h))
]

-- The sum of the lines of one kind, when a line is written at the end.
sum_of-snoc :
    (q : FareLine → Bool) (xs : List FareLine) (l : FareLine)
    → sum (filter q (xs ++ l ∷ [])) ≡ sum (filter q xs) +ℤ (if q l then l.amount_minor else pos 0)
unfolding sum
sum_of-snoc q [] l = elim (Bool-cases (q l)) [
  | inl e ↦ rw e (omega int_laws)
  | inr e ↦ rw e (omega int_laws)
]
sum_of-snoc q (x ∷ xs) l = elim (Bool-cases (q x)) [
  | inl e ↦ rw (e, sum_of-snoc q xs l) (omega int_laws)
  | inr e ↦ rw (e, sum_of-snoc q xs l) refl
]

with_tax-sum_of :
    (q : FareLine → Bool) (t : ℤ) (ls : List FareLine)
    → pos 0 ≤ℤ t
    → sum (filter q (with_tax t ls))
      ≡ sum (filter q ls) +ℤ (if q (line FareCode.tax t) then t else pos 0)
with_tax-sum_of q t ls h = elim (Bool-cases (ltb_ℤ (pos 0) t)) [
  | inl e ↦ rw e (sum_of-snoc q ls (line FareCode.tax t))
  | inr n ↦
      let free = not_positive t h n in
      rw n (elim (Bool-cases (q (line FareCode.tax t))) [
        | inl e ↦ rw (e, free) (sym (+ℤ-zero _))
        | inr e ↦ rw e (sym (+ℤ-zero _))
      ])
]

plus_negate : (a d : ℤ) → a +ℤ negate d ≡ a -ℤ d
plus_negate a d = ap (λ x. a +ℤ x) (sym (+ℤ-zero (negate d))) ∙ negate_add a d

with_promo-sum_of :
    (q : FareLine → Bool) (d : ℤ) (ls : List FareLine)
    → pos 0 ≤ℤ d
    → sum (filter q (with_promo d ls))
      ≡ sum (filter q ls) -ℤ (if q (line FareCode.promo (negate d)) then d else pos 0)
with_promo-sum_of q d ls h = elim (Bool-cases (ltb_ℤ (pos 0) d)) [
  | inl e ↦
      rw (e, sum_of-snoc q ls (line FareCode.promo (negate d)))
        (elim (Bool-cases (q (line FareCode.promo (negate d)))) [
          | inl k ↦ rw k (plus_negate _ d)
          | inr k ↦ rw k (omega int_laws)
        ])
  | inr n ↦
      let free = not_positive d h n in
      let same : (if q (line FareCode.promo (negate d)) then d else pos 0) ≡ pos 0 =
        elim (Bool-cases (q (line FareCode.promo (negate d)))) [
          | inl k ↦ rw k free
          | inr k ↦ rw k refl
        ] in
      rw (n, same) (omega int_laws)
]

other_promo : (c : FareCode) (a : ℤ) → is_kept (line c a) ≡ true → is_promo (line c a) ≡ false
other_promo FareCode.promo a h = cc
other_promo _ a h = refl

other_tax : (c : FareCode) (a : ℤ) → is_kept (line c a) ≡ true → is_tax (line c a) ≡ false
other_tax FareCode.tax a h = cc
other_tax _ a h = refl

-- No line that is kept is of such a kind.
no_kept :
    (q : FareLine → Bool) (ls : List FareLine)
    → ((l : FareLine) → is_kept l ≡ true → q l ≡ false)
    → filter q (filter is_kept ls) ≡ []
no_kept q [] h = refl
no_kept q (l ∷ ls) h = elim (Bool-cases (is_kept l)) [
  | inl e ↦ rw (e, h l e, no_kept q ls h) refl
  | inr n ↦ rw (n, no_kept q ls h) refl
]

-- A promo on a fare whose lines add up gives such a fare, with the same subtotal, surge and
-- lines but those of promo and tax. The promo lines take off the discount: nothing if the promo is not
-- positive, all of the subtotal if it is more than that, else the promo. The tax lines add the
-- percentage of what is left, and the total is what is left with that tax.
pub apply_promo_and_tax-IsApplied :
    (fare : FareResult) (promo_discount : ℤ) (tax_percent : ℕ)
    → AddsUp fare
    → IsApplied fare promo_discount tax_percent
        (apply_promo_and_tax fare promo_discount tax_percent)
unfolding apply_promo_and_tax sum
apply_promo_and_tax-IsApplied fare promo p h =
    let s = fare.subtotal_minor in
    let discount = discount_of promo s in
    let (low, high) = discount_of-bounds promo s h.priced in
    let left : pos 0 ≤ℤ s -ℤ discount = omega (int_laws, high) in
    let t = tax_on p (s -ℤ discount) in
    let due = tax_on-nonneg p (s -ℤ discount) left in
    let percent = tax_on-percent_of p (s -ℤ discount) left in
    let kept = filter is_kept fare.lines in
    let promo_kept : filter is_promo kept ≡ [] =
      no_kept is_promo fare.lines (λ l. other_promo l.code l.amount_minor) in
    let tax_kept : filter is_tax kept ≡ [] =
      no_kept is_tax fare.lines (λ l. other_tax l.code l.amount_minor) in
    record {
      adds_up = apply_promo_and_tax-AddsUp fare promo p h;
      subtotal = refl;
      surge = refl;
      kept =
          with_tax-kept t (with_promo discount kept)
          ∙ with_promo-kept discount kept
          ∙ filter-idempotent fare.lines;
      discount = discount;
      discounted = discount_of-Discount promo s h.priced;
      promo_lines =
          with_tax-sum_of is_promo t (with_promo discount kept) due
          ∙ +ℤ-zero _
          ∙ with_promo-sum_of is_promo discount kept low
          ∙ ap (λ ls. sum ls -ℤ discount) promo_kept;
      tax_lines =
          with_tax-sum_of is_tax t (with_promo discount kept) due
          ∙ ap (λ x. x +ℤ t)
              (with_promo-sum_of is_tax discount kept low ∙ ap (λ ls. sum ls -ℤ pos 0) tax_kept)
          ∙ rw percent (omega int_laws);
      total = ap (λ x. s -ℤ discount +ℤ x) percent;
    }
