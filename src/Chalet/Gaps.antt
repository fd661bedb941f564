-- ===== src/Chalet/Gaps.antt =====
-- apps/api/src/modules/chalet/domain/gap-filler.ts: offers for the holes of a day. Titles are not
-- modelled. Rates are natural numbers, as the schemas of the API require.
pub mod Rates
pub mod LastMinute
use tamam.Prelude.Lists.{filter}
use tamam.Prelude.{◌%◌, ◌/◌}
use tamam.Chalet.Calendar.{minutes_between, FreeWindow, minute}
use tamam.Money.{Decimal, round_times}
use tamam.Prelude.{
  ℕ, ◌+◌, ◌-◌, ◌*◌, ◌/◌, ◌==◌, ltb, leb, Bool, true, false, not, ◌||◌, List, [], ◌∷◌, Option, none,
  some, if◌then◌else◌,
}
use tamam.Prelude.Int.{ℤ, pos, ltb_ℤ, leb_ℤ, pos_part}

pub data ChaletOfferKind : Type 0 where
  last_minute gap_filler morning_special extension low_demand duration_bundle : ChaletOfferKind

pub record OfferCandidate : Type 0 where
  pub kind : ChaletOfferKind
  pub slot_start_at : ℕ
  pub slot_end_at : ℕ
  pub discount_percent : ℕ
  pub starts_at : ℕ
  pub expires_at : ℕ

pub record GapFillerSettings : Type 0 where
  pub minimum_gap_minutes : ℕ
  pub minimum_booking_duration_minutes : ℕ
  pub maximum_discount_percent : ℕ
  pub closes_before_start_minutes : ℕ

-- `room <= 0 ? 1 : room <= 60 ? 0.66 : room <= 180 ? 0.5 : 0.33`
abbrev pub scale_of : ℕ → Decimal
scale_of room =
    if room == 0
    then 1_000_000
    else if leb room 60
    then 660_000
    else if leb room 180
    then 500_000
    else 330_000

-- `gapDiscountPercent`
unfoldable pub gap_discount_percent : ℕ → GapFillerSettings → ℕ
gap_discount_percent gap settings =
    if ltb gap settings.minimum_booking_duration_minutes
    then 0
    else round_times settings.maximum_discount_percent
        (scale_of (gap - settings.minimum_booking_duration_minutes))

-- The `continue`s of `offersForGaps` before the discount; a closing time before the epoch is not after
-- now either.
abbrev pub skips : FreeWindow → GapFillerSettings → ℕ → Bool
skips gap settings now =
    not gap.is_gap
    || (ltb_ℤ gap.available_minutes (pos settings.minimum_gap_minutes)
        || (ltb_ℤ gap.available_minutes (pos settings.minimum_booking_duration_minutes)
            || leb gap.start_at (now + settings.closes_before_start_minutes * minute)))

abbrev pub offer_for : FreeWindow → GapFillerSettings → ℕ → ℕ → OfferCandidate
offer_for gap settings now discount = record {
  kind = gap_filler;
  slot_start_at = gap.start_at;
  slot_end_at = gap.end_at;
  discount_percent = discount;
  starts_at = now;
  expires_at = gap.start_at - settings.closes_before_start_minutes * minute;
}

-- `offersForGaps`
unfoldable pub offers_for_gaps : List FreeWindow → GapFillerSettings → ℕ → List OfferCandidate
offers_for_gaps [] settings now = []
offers_for_gaps (gap ∷ rest) settings now =
    let others = offers_for_gaps rest settings now in
    let discount = gap_discount_percent (pos_part gap.available_minutes) settings in
    if skips gap settings now
    then others
    else if discount == 0
    then others
    else offer_for gap settings now discount ∷ others

-- The rate and the discount that an offer advertises.
pub record OfferedRate : Type 0 where
  pub hourly_rate_minor : ℕ
  pub discount_percent : ℕ

-- `Math.max(0, realPercent)`
abbrev pub real_percent : ℕ → ℕ → ℕ
real_percent base floored = if base == 0 then 0 else (base - floored) * 100 / base

-- `offeredRate`
unfoldable pub offered_rate : ℕ → ℕ → ℕ → OfferedRate
offered_rate base minimum percent =
    let cut = base * percent / 100 in
    if leb (minimum + cut) base
    then record { hourly_rate_minor = base - cut; discount_percent = percent }
    else record { hourly_rate_minor = minimum; discount_percent = real_percent base minimum }

-- The start of what is left of a window.
abbrev pub later_start : FreeWindow → ℕ → ℕ
later_start window now = if ltb window.start_at now then now else window.start_at

-- The `continue`s of `offersForLastMinute`.
abbrev pub passes_by : FreeWindow → GapFillerSettings → ℕ → ℕ → Bool
passes_by window settings now horizon =
    window.is_gap
    || (ltb horizon window.start_at
        || (leb window.end_at now
            || (ltb_ℤ window.available_minutes (pos settings.minimum_booking_duration_minutes)
                || ltb_ℤ (minutes_between (later_start window now) window.end_at)
                    (pos settings.minimum_booking_duration_minutes))))

-- `getUTCHours() < 9`
abbrev pub is_morning : FreeWindow → Bool
is_morning window = ltb (window.start_at / (60 * minute) % 24) 9

abbrev pub last_minute_offer : FreeWindow → GapFillerSettings → ℕ → OfferCandidate
last_minute_offer window settings now = record {
  kind = if is_morning window then morning_special else last_minute;
  slot_start_at = later_start window now;
  slot_end_at = window.end_at;
  discount_percent = settings.maximum_discount_percent;
  starts_at = now;
  expires_at = window.end_at - settings.minimum_booking_duration_minutes * minute;
}

-- The loop of `offersForLastMinute`.
unfoldable pub last_minute_loop : List FreeWindow → GapFillerSettings → ℕ → ℕ → List OfferCandidate
last_minute_loop [] settings now horizon = []
last_minute_loop (window ∷ rest) settings now horizon =
    let others = last_minute_loop rest settings now horizon in
    if passes_by window settings now horizon
    then others
    else last_minute_offer window settings now ∷ others

-- `offersForLastMinute`; an expiry before the epoch is not after now either.
unfoldable pub offers_for_last_minute :
    List FreeWindow → GapFillerSettings → ℕ → ℕ → List OfferCandidate
unfolding last_minute_loop
offers_for_last_minute windows settings now hours_ahead =
    filter (λ o. ltb now o.expires_at)
      (last_minute_loop windows settings now (now + hours_ahead * 60 * minute))
