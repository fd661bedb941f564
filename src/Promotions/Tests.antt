-- ===== src/Promotions/Tests.antt =====
-- The theorem on promotions at a concrete code and order.
use tamam.Money.{rounded_quotient, percent_of, one}
use tamam.Prelude.{true, ◌≡◌, [], ◌∷◌, false, some, none, ◌*◌, refl}
use tamam.Prelude.Int.{◌*ℤ◌}
use tamam.Promotions.{
  granted, discount_for, percentage, pos, rejection, PromoRule, PromoContext, evaluate_promo,
}
use tamam.Promotions.Discount.{evaluate_promo-IsDiscount, IsDiscount}
use tamam.Shared.Enums.{ride, PaymentMethod}

abbrev summer : PromoRule
summer = record {
  type = percentage;
  value = 20 * one;
  max_discount_minor = some (pos 1500);
  min_order_minor = pos 1000;
  currency = "ILS";
  starts_at = 100;
  ends_at = some 900;
  usage_limit = some 50;
  usage_count = 12;
  per_user_limit = 1;
  first_order_only = false;
  job_types = ride ∷ [];
  payment_methods = [];
  is_active = true;
  category_ids = [];
  zone_ids = "z1" ∷ "z2" ∷ [];
  user_ids = [];
}

abbrev order : PromoContext
order = record {
  user_id = "u1";
  job_type = ride;
  category_id = none;
  zone_id = "z2";
  payment_method = PaymentMethod.card;
  subtotal_minor = pos 9000;
  currency = "ILS";
  is_first_order = false;
  user_redemptions = 0;
  now = 500;
}

summer_granted : evaluate_promo summer order ≡ granted (pos 1500)
unfolding evaluate_promo rejection discount_for percent_of rounded_quotient ◌*ℤ◌
summer_granted = refl

evaluate_promo-IsDiscount_example : IsDiscount summer order (pos 1500)
evaluate_promo-IsDiscount_example = evaluate_promo-IsDiscount summer order (pos 1500) summer_granted
