-- ===== src/Pricing/Itemised.antt =====
-- The breakdown of a fare adds up to its total.
use tamam.Money.Rounding.{percent_of-nonneg}
use tamam.Prelude.{
  zero, suc, ◌≤◌, arith, ltb, ℕ, refl, false, inr, inl, ◌∙◌, ap, [], Bool-cases, sym, true, ◌++◌,
  ◌∷◌, ◌≡◌, Bool, List,
}
use tamam.Prelude.Int.{
  negsuc, neg_part, negate, parts_of_eq, pos_part, ltb_ℤ, ◌≤ℤ◌, +ℤ-zero, zero-+ℤ, int_laws, ℤ, pos,
  ◌+ℤ◌, ◌-ℤ◌,
}
use tamam.Prelude.Lists.{filter}
use tamam.Pricing.{
  with_promo, finish, discount_of, apply_promo_and_tax, tax, tax_on, with_tax, charge_if,
  reprice_if, is_kept, Bill, FareResult, FareLine, line, FareCode,
}

-- The sum of the lines.
unfoldable pub sum : List FareLine → ℤ
sum [] = pos 0
sum (l ∷ ls) = l.amount_minor +ℤ sum ls

pub sum-append : (xs ys : List FareLine) → sum (xs ++ ys) ≡ sum xs +ℤ sum ys
unfolding sum
sum-append [] ys = sym (zero-+ℤ (sum ys))
sum-append (x ∷ xs) ys = rw (sum-append xs ys) (omega int_laws)

pub filter-append :
    (xs ys : List FareLine) → filter is_kept (xs ++ ys) ≡ filter is_kept xs ++ filter is_kept ys
filter-append [] ys = refl
filter-append (x ∷ xs) ys = elim (Bool-cases (is_kept x)) [
  | inl e ↦ rw (e, filter-append xs ys) refl
  | inr n ↦ rw (n, filter-append xs ys) refl
]

-- The lines add up to the amount, which is not negative, and none is a promo or a tax line.
pub record IsItemised (bill : Bill) : Type 0 where
  pub adds_up : sum bill.lines ≡ bill.amount
  pub plain : filter is_kept bill.lines ≡ bill.lines
  pub payable : pos 0 ≤ℤ bill.amount

-- Adding a line of the amount that is added.
extend :
    (ls : List FareLine) (code : FareCode) (a b : ℤ)
    → sum ls +ℤ b ≡ a
    → is_kept (line code b) ≡ true
    → filter is_kept ls ≡ ls
    → pos 0 ≤ℤ a
    → IsItemised (record { lines = ls ++ line code b ∷ []; amount = a })
unfolding sum
extend ls code a b e keep h p = record {
  adds_up = sum-append ls (line code b ∷ []) ∙ ap (λ x. sum ls +ℤ x) (+ℤ-zero b) ∙ e;
  plain = rw (filter-append ls (line code b ∷ []), keep, h) refl;
  payable = p;
}

pub charge_if-IsItemised :
    (test : Bool) (code : FareCode) (b : ℤ) (bill : Bill)
    → is_kept (line code b) ≡ true
    → (test ≡ true → pos 0 ≤ℤ b)
    → IsItemised bill
    → IsItemised (charge_if test code b bill)
unfolding charge_if
charge_if-IsItemised true code b bill keep p h =
    let more : pos 0 ≤ℤ bill.amount +ℤ b = omega (int_laws, p refl, h.payable) in
    extend bill.lines code (bill.amount +ℤ b) b (ap (λ x. x +ℤ b) h.adds_up) keep h.plain more
charge_if-IsItemised false code b bill keep p h = h

pub reprice_if-IsItemised :
    (test : Bool) (code : FareCode) (next : ℤ) (bill : Bill)
    → is_kept (line code next) ≡ true
    → pos 0 ≤ℤ next
    → IsItemised bill
    → IsItemised (reprice_if test code next bill)
unfolding reprice_if
reprice_if-IsItemised true code next bill keep p h =
    extend bill.lines code next (next -ℤ bill.amount) (rw h.adds_up (omega int_laws)) keep h.plain p
reprice_if-IsItemised false code next bill keep p h = h

-- The lines of a fare add up to its total, and without promo and tax to its subtotal; neither is
-- negative.
pub record AddsUp (fare : FareResult) : Type 0 where
  pub total : sum fare.lines ≡ fare.total_minor
  pub subtotal : sum (filter is_kept fare.lines) ≡ fare.subtotal_minor
  pub owed : pos 0 ≤ℤ fare.total_minor
  pub priced : pos 0 ≤ℤ fare.subtotal_minor

pub tax_on-nonneg : (p : ℕ) (a : ℤ) → pos 0 ≤ℤ a → pos 0 ≤ℤ tax_on p a
tax_on-nonneg p a h = elim (Bool-cases (ltb 0 p)) [
  | inl e ↦ rw e (percent_of-nonneg a p h)
  | inr n ↦ rw n (omega arith)
]

append-nil : (ls : List FareLine) → ls ++ [] ≡ ls
append-nil [] = refl
append-nil (l ∷ ls) = ap (◌∷◌ l) (append-nil ls)

pub filter-idempotent :
    (ls : List FareLine) → filter is_kept (filter is_kept ls) ≡ filter is_kept ls
filter-idempotent [] = refl
filter-idempotent (l ∷ ls) = elim (Bool-cases (is_kept l)) [
  | inl e ↦ rw (e, e, filter-idempotent ls) refl
  | inr n ↦ rw (n, filter-idempotent ls) refl
]

pub not_positive : (t : ℤ) → pos 0 ≤ℤ t → ltb_ℤ (pos 0) t ≡ false → t ≡ pos 0
not_positive t h n = let small : pos_part t ≤ neg_part t = ground arith in omega int_laws

-- A line for an amount that is not negative, written only if it is positive.
with_tax-sum : (t : ℤ) (ls : List FareLine) → pos 0 ≤ℤ t → sum (with_tax t ls) ≡ sum ls +ℤ t
unfolding sum
with_tax-sum t ls h = elim (Bool-cases (ltb_ℤ (pos 0) t)) [
  | inl e ↦ rw (e, sum-append ls (line tax t ∷ [])) (omega int_laws)
  | inr n ↦ rw n (omega (int_laws, parts_of_eq t (pos 0) (not_positive t h n)))
]

pub negate_add : (a d : ℤ) → a +ℤ (negate d +ℤ pos 0) ≡ a -ℤ d
negate_add a (pos zero) = omega int_laws
negate_add a (pos (suc n)) = grind int_laws
negate_add a (negsuc n) = grind int_laws

with_promo-sum : (d : ℤ) (ls : List FareLine) → pos 0 ≤ℤ d → sum (with_promo d ls) ≡ sum ls -ℤ d
unfolding sum
with_promo-sum d ls h =
    let opposite : sum ls +ℤ (negate d +ℤ pos 0) ≡ sum ls -ℤ d = negate_add (sum ls) d in
    elim (Bool-cases (ltb_ℤ (pos 0) d)) [
      | inl e ↦ rw (e, sum-append ls (line FareCode.promo (negate d) ∷ [])) opposite
      | inr n ↦ rw n (omega (int_laws, parts_of_eq d (pos 0) (not_positive d h n)))
    ]

pub with_tax-kept :
    (t : ℤ) (ls : List FareLine) → filter is_kept (with_tax t ls) ≡ filter is_kept ls
with_tax-kept t ls = elim (Bool-cases (ltb_ℤ (pos 0) t)) [
  | inl e ↦ rw (e, filter-append ls (line tax t ∷ [])) (append-nil (filter is_kept ls))
  | inr n ↦ rw n refl
]

pub with_promo-kept :
    (d : ℤ) (ls : List FareLine) → filter is_kept (with_promo d ls) ≡ filter is_kept ls
with_promo-kept d ls = elim (Bool-cases (ltb_ℤ (pos 0) d)) [
  | inl e ↦
      rw (e, filter-append ls (line FareCode.promo (negate d) ∷ []))
        (append-nil (filter is_kept ls))
  | inr n ↦ rw n refl
]

pub finish-AddsUp :
    (bill : Bill) (p surge_multiplier : ℕ)
    → IsItemised bill
    → AddsUp (finish bill p surge_multiplier)
unfolding finish
finish-AddsUp bill p m h =
    let due = tax_on-nonneg p bill.amount h.payable in
    record {
      total =
          with_tax-sum (tax_on p bill.amount) bill.lines due
          ∙ ap (λ x. x +ℤ tax_on p bill.amount) h.adds_up;
      subtotal = ap sum (with_tax-kept (tax_on p bill.amount) bill.lines ∙ h.plain) ∙ h.adds_up;
      owed = omega (int_laws, due, h.payable);
      priced = h.payable;
    }

-- The discount is between 0 and the subtotal.
pub discount_of-bounds :
    (p s : ℤ) → pos 0 ≤ℤ s → (pos 0 ≤ℤ discount_of p s) × (discount_of p s ≤ℤ s)
discount_of-bounds p s h = (ground arith, ground arith)

-- Applying a promo to a fare whose lines add up gives such a fare again, at the same subtotal, for
-- any promo amount and tax: the lines add up to the new total, which is not negative.
pub apply_promo_and_tax-AddsUp :
    (fare : FareResult) (promo_discount : ℤ) (p : ℕ)
    → AddsUp fare
    → AddsUp (apply_promo_and_tax fare promo_discount p)
unfolding apply_promo_and_tax
apply_promo_and_tax-AddsUp fare d p h =
    let s = fare.subtotal_minor in
    let discount = discount_of d s in
    let (low, high) = discount_of-bounds d s h.priced in
    let rest : pos 0 ≤ℤ s -ℤ discount = omega (int_laws, high) in
    let due = tax_on-nonneg p (s -ℤ discount) rest in
    let kept = filter is_kept fare.lines in
    let lines = with_promo discount kept in
    record {
      total =
          with_tax-sum (tax_on p (s -ℤ discount)) lines due
          ∙ ap (λ x. x +ℤ tax_on p (s -ℤ discount))
              (with_promo-sum discount kept low ∙ ap (λ x. x -ℤ discount) h.subtotal);
      subtotal =
          ap sum (
            with_tax-kept (tax_on p (s -ℤ discount)) lines
            ∙ with_promo-kept discount kept
            ∙ filter-idempotent fare.lines)
          ∙ h.subtotal;
      owed = omega (int_laws, due, rest);
      priced = h.priced;
    }

pub natural : (n : ℕ) → pos 0 ≤ℤ pos n
natural n = omega arith
