-- ===== src/Chalet/Gaps/LastMinute.antt =====
-- The offers for the open end of a day.
use tamam.Chalet.Calendar.{FreeWindow, minute, minutes_between}
use tamam.Chalet.Gaps.{
  OfferCandidate, GapFillerSettings, passes_by, last_minute_offer, last_minute_loop,
  offers_for_last_minute,
}
use tamam.Prelude.{
  ℕ, ◌+◌, ◌*◌, ◌≤◌, ◌<◌, ltb, ltb→lt, ◌≡◌, refl, Bool, false, ◌||◌, List, [], ◌∷◌, inl, inr,
  Bool-cases, if◌then◌else◌, arith,
}
use tamam.Prelude.Int.{pos, ltb_ℤ}
use tamam.Prelude.Lists.{All, filter}

-- What is left of an open window, still long enough.
record IsLastMinute (settings : GapFillerSettings) (now horizon : ℕ) (offer : OfferCandidate)
    : Type 0 where
  from_now : now ≤ offer.slot_start_at
  soon : offer.slot_start_at ≤ now + horizon
  discount : offer.discount_percent ≡ settings.maximum_discount_percent
  room :
      ltb_ℤ
        (minutes_between offer.slot_start_at offer.slot_end_at)
        (pos settings.minimum_booking_duration_minutes)
      ≡ false

last_minute_offer-IsLastMinute :
    (window : FreeWindow) (settings : GapFillerSettings) (now horizon : ℕ)
    → passes_by window settings now (now + horizon) ≡ false
    → IsLastMinute settings now horizon (last_minute_offer window settings now)
last_minute_offer-IsLastMinute window settings now horizon kept =
    let (soon, room) = open_end _ _ _ _ _ kept in
    record {
      from_now = starts_later window.start_at now;
      soon = within window.start_at now horizon soon;
      discount = refl;
      room = room;
    }
  where
    open_end : (a b c d e : Bool) → a || (b || (c || (d || e))) ≡ false → (b ≡ false) × (e ≡ false)
    open_end a b c d e h = ground arith

    starts_later : (start now : ℕ) → now ≤ (if ltb start now then now else start)
    starts_later start now = ground arith

    within :
        (start now horizon : ℕ)
        → ltb (now + horizon) start ≡ false
        → (if ltb start now then now else start) ≤ now + horizon
    within start now horizon h = ground arith

loop-IsLastMinute :
    (windows : List FreeWindow) (settings : GapFillerSettings) (now horizon : ℕ)
    → All
        (IsLastMinute settings now horizon)
        (last_minute_loop windows settings now (now + horizon))
unfolding last_minute_loop
loop-IsLastMinute [] settings now horizon = tt
loop-IsLastMinute (window ∷ rest) settings now horizon =
    let others = loop-IsLastMinute rest settings now horizon in
    elim (Bool-cases (passes_by window settings now (now + horizon))) [
      | inl e ↦ rw e others
      | inr e ↦ rw e (last_minute_offer-IsLastMinute window settings now horizon e, others)
    ]

live_ones :
    (settings : GapFillerSettings) (now horizon : ℕ) (offers : List OfferCandidate)
    → All (IsLastMinute settings now horizon) offers
    → All
        (λ o. (now < o.expires_at) × IsLastMinute settings now horizon o)
        (filter (λ o. ltb now o.expires_at) offers)
live_ones settings now horizon [] h = tt
live_ones settings now horizon (o ∷ rest) h =
    let others = live_ones settings now horizon rest h.1 in
    elim (Bool-cases (ltb now o.expires_at)) [
      | inl e ↦ rw e ((ltb→lt now o.expires_at e, h.0), others)
      | inr e ↦ rw e others
    ]

-- Every offer of the last minute is live, begins between now and the horizon, has the deepest discount that the
-- owner allows, and leaves room for the shortest booking.
offers_for_last_minute-IsLastMinute :
    (windows : List FreeWindow) (settings : GapFillerSettings) (now hours : ℕ)
    → All
        (λ o. (now < o.expires_at) × IsLastMinute settings now (hours * 60 * minute) o)
        (offers_for_last_minute windows settings now hours)
unfolding offers_for_last_minute
offers_for_last_minute-IsLastMinute windows settings now hours =
    live_ones settings now (hours * 60 * minute) _
      (loop-IsLastMinute windows settings now (hours * 60 * minute))
