-- ===== src/Promotions.antt =====
-- apps/api/src/modules/promotions/domain/promo.rules.ts: whether a promo code applies to an order,
-- and its discount. Instants are milliseconds; identifiers are strings. An optional identifier
-- that is the empty string counts as missing, as it does in the code.
mod Tests
pub mod Discount
use Prim.Native.String.{String}
use tamam.Money.{Decimal, percent_of, round_times}
use tamam.Prelude.{
  ℕ, List, [], ◌∷◌, Bool, true, false, not, ltb, leb, ◌&&◌, ◌||◌, Option, none, some, if◌then◌else◌,
}
use tamam.Prelude.Data.{Eq, ◌===◌}
use tamam.Prelude.Int.{ℤ, pos, ltb_ℤ, leb_ℤ}
use tamam.Prelude.Lists.{includes}
use tamam.Shared.Enums.{
  JobType, PaymentMethod, PromoType, job_type_eq, payment_method_eq, promo_type_eq, percentage,
}
use tamam.Shared.Errors.{
  ErrorCode, promo_invalid, promo_expired, promo_usage_exceeded, promo_min_order_not_met,
  promo_not_eligible,
}
use tamam.Shared.Text.{string_eq, has_text}

-- `PromoRule`, less its id and code, which the evaluation does not read.
pub record PromoRule : Type 0 where
  pub type : PromoType
  pub value : Decimal
  pub max_discount_minor : Option ℤ
  pub min_order_minor : ℤ
  pub currency : String
  pub starts_at : ℕ
  pub ends_at : Option ℕ
  pub usage_limit : Option ℕ
  pub usage_count : ℕ
  pub per_user_limit : ℕ
  pub first_order_only : Bool
  pub job_types : List JobType
  pub payment_methods : List PaymentMethod
  pub is_active : Bool
  pub category_ids : List String
  pub zone_ids : List String
  pub user_ids : List String

-- `PromoContext`
pub record PromoContext : Type 0 where
  pub user_id : String
  pub job_type : JobType
  pub category_id : Option String
  pub zone_id : String
  pub payment_method : PaymentMethod
  pub subtotal_minor : ℤ
  pub currency : String
  pub is_first_order : Bool
  pub user_redemptions : ℕ
  pub now : ℕ

-- `PromoEvaluation`
pub data PromoEvaluation : Type 0 where
  granted : ℤ → PromoEvaluation
  reject : ErrorCode → PromoEvaluation

-- `ends && ends.getTime() <= now.getTime()`; a date is never false.
abbrev pub has_ended : Option ℕ → ℕ → Bool
has_ended none now = false
has_ended (some at) now = leb at now

-- `usageLimit !== null && usageCount >= usageLimit`
abbrev pub is_used_up : Option ℕ → ℕ → Bool
is_used_up none count = false
is_used_up (some limit) count = leb limit count

-- `xs.length && !xs.includes(x)`
abbrev pub excludes {ℓ} : {A : Type ℓ} ⦃e : Eq A⦄ → List A → A → Bool
excludes [] x = false
excludes (y ∷ ys) x = not (includes (y ∷ ys) x)

-- `ids.length && (!categoryId || !ids.includes(categoryId))`
abbrev pub excludes_category : List String → Option String → Bool
excludes_category [] category = false
excludes_category (y ∷ ys) none = true
excludes_category (y ∷ ys) (some id) = not (has_text (some id)) || not (includes (y ∷ ys) id)

-- The first code that rejects, in the order of the checks.
unfoldable pub rejection : PromoRule → PromoContext → Option ErrorCode
rejection promo ctx =
    if not promo.is_active || ltb ctx.now promo.starts_at
    then some promo_invalid
    else if has_ended promo.ends_at ctx.now
    then some promo_expired
    else if not (promo.currency === ctx.currency)
    then some promo_not_eligible
    else if is_used_up promo.usage_limit promo.usage_count
        || (ltb 0 promo.per_user_limit && leb promo.per_user_limit ctx.user_redemptions)
    then some promo_usage_exceeded
    else if (promo.first_order_only && not ctx.is_first_order)
        || excludes promo.job_types ctx.job_type
        || excludes_category promo.category_ids ctx.category_id
        || excludes promo.zone_ids ctx.zone_id
        || excludes promo.user_ids ctx.user_id
        || excludes promo.payment_methods ctx.payment_method
    then some promo_not_eligible
    else if ltb_ℤ ctx.subtotal_minor promo.min_order_minor
    then some promo_min_order_not_met
    else none

-- `if (max !== null && discount > max) discount = max`
abbrev pub capped : Option ℤ → ℤ → ℤ
capped none discount = discount
capped (some max) discount = if ltb_ℤ max discount then max else discount

-- The discount of the type, under its maximum and the subtotal.
unfoldable pub discount_for : PromoRule → PromoContext → ℤ
discount_for promo ctx =
    let full =
      if promo.type === percentage
      then percent_of ctx.subtotal_minor promo.value
      else pos (round_times 1 promo.value) in
    let limited = capped promo.max_discount_minor full in
    if ltb_ℤ ctx.subtotal_minor limited then ctx.subtotal_minor else limited

-- `evaluatePromo`
unfoldable pub evaluate_promo : PromoRule → PromoContext → PromoEvaluation
unfolding rejection discount_for
evaluate_promo promo ctx = elim (rejection promo ctx) [
  | some code ↦ reject code
  | none ↦
      if leb_ℤ (discount_for promo ctx) (pos 0)
      then reject promo_not_eligible
      else granted (discount_for promo ctx)
]
