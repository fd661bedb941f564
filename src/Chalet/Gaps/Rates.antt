-- ===== src/Chalet/Gaps/Rates.antt =====
-- What the offers of the gap filler promise.
use native.Mathlib.Nat.{mul-div-le, div-le_of_le-mul}
use tamam.Chalet.Calendar.{FreeWindow, minute}
use tamam.Chalet.Gaps.{
  OfferCandidate, GapFillerSettings, OfferedRate, scale_of, gap_discount_percent, skips, offer_for,
  offers_for_gaps, real_percent, offered_rate,
}
use tamam.Money.{round_times}
use tamam.Prelude.{
  ℕ, ◌+◌, ◌-◌, ◌*◌, ◌/◌, ◌≤◌, ◌<◌, ◌==◌, ltb, leb, ◌≡◌, refl, Bool, true, false, not, ◌||◌, List,
  [], ◌∷◌, inl, inr, Bool-cases, arith,
}
use tamam.Prelude.Int.{pos, pos_part, ltb_ℤ}
use tamam.Prelude.Lists.{All}

scaled-le : (room most : ℕ) → round_times most (scale_of room) ≤ most
scaled-le room most = elim (Bool-cases (room == 0)) [
  | inl e ↦ rw e (omega arith)
  | inr e ↦ elim (Bool-cases (leb room 60)) [
    | inl f ↦ rw (e, f) (omega arith)
    | inr f ↦ elim (Bool-cases (leb room 180)) [
      | inl g ↦ rw (e, f, g) (omega arith)
      | inr g ↦ rw (e, f, g) (omega arith)
    ]
  ]
]

-- No gap gets a deeper discount than the owner allows.
gap_discount_percent-le :
    (gap : ℕ) (settings : GapFillerSettings)
    → gap_discount_percent gap settings ≤ settings.maximum_discount_percent
unfolding gap_discount_percent
gap_discount_percent-le gap settings =
    elim (Bool-cases (ltb gap settings.minimum_booking_duration_minutes)) [
      | inl e ↦ rw e (omega arith)
      | inr e ↦ rw e (
          scaled-le (gap - settings.minimum_booking_duration_minutes)
            settings.maximum_discount_percent)
    ]

-- An offer that the owner's settings allow, for a gap of the list that can be booked.
pub record IsOffer (settings : GapFillerSettings) (now : ℕ) (offer : OfferCandidate) : Type 0 where
  pub some_discount : 1 ≤ offer.discount_percent
  pub allowed : offer.discount_percent ≤ settings.maximum_discount_percent
  pub starts : offer.starts_at ≡ now
  pub live : now < offer.expires_at
  pub in_time :
      offer.expires_at + settings.closes_before_start_minutes * minute ≡ offer.slot_start_at

in_time_of :
    (gap : FreeWindow) (settings : GapFillerSettings) (now : ℕ)
    → skips gap settings now ≡ false
    → now + settings.closes_before_start_minutes * minute < gap.start_at
in_time_of gap settings now kept =
    late (not gap.is_gap) (ltb_ℤ gap.available_minutes (pos settings.minimum_gap_minutes))
      (ltb_ℤ gap.available_minutes (pos settings.minimum_booking_duration_minutes)) now
      (settings.closes_before_start_minutes * minute) gap.start_at kept
  where
    late :
        (a b c : Bool) (now margin start : ℕ)
        → a || (b || (c || leb start (now + margin))) ≡ false
        → now + margin < start
    late a b c now margin start kept = ground arith

offer_for-IsOffer :
    (gap : FreeWindow) (settings : GapFillerSettings) (now : ℕ)
    → skips gap settings now ≡ false
    → gap_discount_percent (pos_part gap.available_minutes) settings == 0 ≡ false
    → IsOffer settings now (
        offer_for gap settings now (gap_discount_percent (pos_part gap.available_minutes) settings))
offer_for-IsOffer gap settings now kept positive =
    let early = in_time_of gap settings now kept in
    record {
      some_discount = at_least_one _ positive;
      allowed = gap_discount_percent-le (pos_part gap.available_minutes) settings;
      starts = refl;
      live = omega arith;
      in_time = omega arith;
    }
  where
    at_least_one : (n : ℕ) → n == 0 ≡ false → 1 ≤ n
    at_least_one n h = ground arith

-- Every offer for a gap has a discount above 0 and within the owner's maximum, is live from now on, and
-- closes the owner's margin before the slot begins.
pub offers_for_gaps-IsOffer :
    (gaps : List FreeWindow) (settings : GapFillerSettings) (now : ℕ)
    → All (IsOffer settings now) (offers_for_gaps gaps settings now)
unfolding offers_for_gaps
offers_for_gaps-IsOffer [] settings now = tt
offers_for_gaps-IsOffer (gap ∷ rest) settings now =
    let others = offers_for_gaps-IsOffer rest settings now in
    elim (Bool-cases (skips gap settings now)) [
      | inl e ↦ rw e others
      | inr e ↦
          elim (Bool-cases (gap_discount_percent (pos_part gap.available_minutes) settings == 0)) [
            | inl z ↦ rw (e, z) others
            | inr z ↦ rw (e, z) (offer_for-IsOffer gap settings now e z, others)
          ]
    ]

-- A rate that the owner accepts, with a discount that it honours.
pub record IsHonest (base minimum percent : ℕ) (offer : OfferedRate) : Type 0 where
  pub accepted : minimum ≤ offer.hourly_rate_minor
  pub honest : base * offer.discount_percent < (base - offer.hourly_rate_minor) * 100 + 100
  pub no_more : offer.discount_percent ≤ percent

nothing : (n x : ℕ) → n * 0 ≤ x
nothing n x = omega arith

real_percent-honest : (base floored : ℕ) → base * real_percent base floored ≤ (base - floored) * 100
real_percent-honest base floored = elim (Bool-cases (base == 0)) [
  | inl e ↦ rw e (nothing base ((base - floored) * 100))
  | inr e ↦ rw e (mul-div-le ((base - floored) * 100) base)
]

real_percent-le :
    (base floored percent : ℕ)
    → (base - floored) * 100 ≤ base * percent
    → real_percent base floored ≤ percent
real_percent-le base floored percent h = elim (Bool-cases (base == 0)) [
  | inl e ↦ rw e (omega arith)
  | inr e ↦ rw e (div-le_of_le-mul base h)
]

-- The advertised rate is never below the owner's floor, and the advertised discount is real: it is at most the one that was asked for, and the
-- price is cut by it but for less than one minor unit.
pub offered_rate-IsHonest :
    (base minimum percent : ℕ) → IsHonest base minimum percent (offered_rate base minimum percent)
unfolding offered_rate
offered_rate-IsHonest base minimum percent =
    elim (Bool-cases (leb (minimum + base * percent / 100) base)) [
      | inl e ↦ rw e (record {
        accepted = ground arith;
        honest = cut_honest base minimum (base * percent) e;
        no_more = omega arith;
      })
      | inr e ↦
          let real = real_percent-honest base minimum in
          rw e (record {
            accepted = omega arith;
            honest = omega arith;
            no_more = real_percent-le base minimum percent (short base minimum (base * percent) e);
          })
    ]
  where
    cut_honest :
        (base minimum asked : ℕ)
        → leb (minimum + asked / 100) base ≡ true
        → asked < (base - (base - asked / 100)) * 100 + 100
    cut_honest base minimum asked e = ground arith

    short :
        (base minimum asked : ℕ)
        → leb (minimum + asked / 100) base ≡ false
        → (base - minimum) * 100 ≤ asked
    short base minimum asked e = ground arith
