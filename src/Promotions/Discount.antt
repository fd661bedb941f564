-- ===== src/Promotions/Discount.antt =====
-- A discount that is granted.
use mathlib.Core.Path.{subst}
use tamam.Prelude.{refl, Bool, arith, if◌then◌else◌, ◌≡◌, true, false, Option, none, some}
use tamam.Prelude.Int.{ℤ, pos, ◌≤ℤ◌, ltb_ℤ, leb_ℤ}
use tamam.Promotions.{
  promo_not_eligible, PromoRule, PromoContext, granted, reject, rejection, discount_for,
  evaluate_promo, capped,
}
use tamam.Shared.Errors.{ErrorCode}

-- `m` is at least the amount, or there is no maximum.
abbrev pub IsWithin : Option ℤ → ℤ → Type 0
IsWithin none d = Unit
IsWithin (some m) d = d ≤ℤ m

pub record IsDiscount (promo : PromoRule) (ctx : PromoContext) (d : ℤ) : Type 0 where
  pub accepted : rejection promo ctx ≡ none
  pub positive : ltb_ℤ (pos 0) d ≡ true
  pub affordable : d ≤ℤ ctx.subtotal_minor
  pub limited : IsWithin promo.max_discount_minor d

least-IsWithin :
    (max : Option ℤ) (full s : ℤ)
    → IsWithin max (if ltb_ℤ s (capped max full) then s else capped max full)
least-IsWithin none full s = tt
least-IsWithin (some m) full s = ground arith

granted-injective : (a b : ℤ) → granted a ≡ granted b → a ≡ b
granted-injective a b h = cc

affordable_lem :
    (promo : PromoRule) (ctx : PromoContext) → discount_for promo ctx ≤ℤ ctx.subtotal_minor
unfolding discount_for
affordable_lem promo ctx = below ctx.subtotal_minor _
  where
    below : (s l : ℤ) → (if ltb_ℤ s l then s else l) ≤ℤ s
    below s l = ground arith

limited_lem :
    (promo : PromoRule) (ctx : PromoContext)
    → IsWithin promo.max_discount_minor (discount_for promo ctx)
unfolding discount_for
limited_lem promo ctx = least-IsWithin promo.max_discount_minor _ ctx.subtotal_minor

above_zero : (d : ℤ) → leb_ℤ d (pos 0) ≡ false → ltb_ℤ (pos 0) d ≡ true
above_zero d h = ground arith

-- A discount is granted only to an order that no check rejects; it is positive, at most the
-- subtotal, so the order never costs less than nothing, and at most the maximum of the promo.
pub evaluate_promo-IsDiscount :
    (promo : PromoRule) (ctx : PromoContext) (d : ℤ)
    → evaluate_promo promo ctx ≡ granted d
    → IsDiscount promo ctx d
unfolding evaluate_promo
evaluate_promo-IsDiscount promo ctx d h =
    decide (rejection promo ctx) refl (leb_ℤ (discount_for promo ctx) (pos 0)) refl h
  where
    decide :
        (r : Option ErrorCode)
        → rejection promo ctx ≡ r
        → (small : Bool) → leb_ℤ (discount_for promo ctx) (pos 0) ≡ small
        → (elim r [
          | some code ↦ reject code
          | none ↦ if small then reject promo_not_eligible else granted (discount_for promo ctx)
        ])
          ≡ granted d
        → IsDiscount promo ctx d
    decide (some code) e small f k = cc
    decide none e true f k = cc
    decide none e false f k =
        let same = granted-injective (discount_for promo ctx) d k in
        subst (λ x. IsDiscount promo ctx x) same
          (record {
            accepted = e;
            positive = above_zero (discount_for promo ctx) f;
            affordable = affordable_lem promo ctx;
            limited = limited_lem promo ctx;
          })
