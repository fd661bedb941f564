-- ===== src/Chalet/Calendar/Suggest.antt =====
-- `ceilToInterval`, `isOnInterval`, `suggestStartTimes`, `checkSlot` and `bookableWindows` of
-- apps/api/src/modules/chalet/domain/availability.ts.
pub mod Grid
pub mod Loop
pub mod Fuel
pub mod Offers
use mathlib.Core.Option
use tamam.Chalet.Calendar.{
  plus_minutes, pos, FreeWindow, overlaps, BookingRules, Occupancy, minute, block, minutes_between,
  OccupancyKind, Interval, merge_intervals,
}
use tamam.Prelude.{
  ◌||◌, ◌%◌, zero, ◌&&◌, leb, ◌/◌, suc, ◌-◌, ◌==◌, ltb, map, ◌+◌, not, Option, if◌then◌else◌, ◌*◌,
  ℕ, Bool, List, [], ◌∷◌, true, false, some, none,
}
use tamam.Prelude.Int.{ltb_ℤ}
use tamam.Prelude.Lists.{find?}

-- The next point of the grid of `step` milliseconds from `anchor`; `-` is 0 before the anchor.
unfoldable pub ceil_on_grid : ℕ → ℕ → ℕ → ℕ
ceil_on_grid step anchor at = anchor + (at - anchor + step - 1) / step * step

-- `ceilToInterval`; `none` is the error at an interval that is not positive.
unfoldable pub ceil_to_interval : ℕ → ℕ → ℕ → Option ℕ
unfolding ceil_on_grid
ceil_to_interval at anchor interval_minutes =
    if interval_minutes == 0
    then none
    else if leb at anchor
    then some anchor
    else some (ceil_on_grid (interval_minutes * minute) anchor at)

-- `isOnInterval`: the remainder by 0 is NaN, and the sign of the remainder does not matter.
unfoldable pub is_on_interval : ℕ → ℕ → ℕ → Bool
is_on_interval at anchor interval_minutes =
    not (interval_minutes == 0) && (at - anchor + (anchor - at)) % (interval_minutes * minute) == 0

-- What the loop of `suggestStartTimes` reads, in milliseconds: the end of the day, the grid, the
-- length of the booking, the cleaning after it, and the merged occupancies.
pub record Search : Type 0 where
  pub span_end : ℕ
  pub anchor : ℕ
  pub step : ℕ
  pub booking : ℕ
  pub cleaning : ℕ
  pub occupied : List Interval

-- The time that a booking from `start` claims.
abbrev pub claimed : Search → ℕ → Interval
claimed s start = record { start_at = start; end_at = start + s.booking + s.cleaning }

abbrev pub conflict : Search → ℕ → Option Interval
conflict s start = find? (λ o. overlaps o (claimed s start)) s.occupied

-- The `while` loop, with `room` results to go before the limit; `none` if the fuel runs out.
unfoldable pub suggest_loop : ℕ → Search → ℕ → ℕ → Option (List ℕ)
unfolding ceil_on_grid
suggest_loop zero s candidate room = none
suggest_loop (suc fuel) s candidate zero = some []
suggest_loop (suc fuel) s candidate (suc room) = elim (ltb s.span_end (candidate + s.booking)) [
  | true ↦ some []
  | false ↦ elim (conflict s candidate) [
    | none ↦ Option.map (◌∷◌ candidate) (suggest_loop fuel s (candidate + s.step) room)
    | some o ↦ suggest_loop fuel s (ceil_on_grid s.step s.anchor o.end_at) (suc room)
  ]
]

-- `StartTimeOptions`
pub record StartTimeOptions : Type 0 where
  pub span : Interval
  pub occupancies : List Occupancy
  pub rules : BookingRules
  pub duration_minutes : ℕ
  pub not_before : Option ℕ
  pub limit : Option ℕ

abbrev pub search_of : StartTimeOptions → Search
search_of o = record {
  span_end = o.span.end_at;
  anchor = o.span.start_at;
  step = o.rules.booking_interval_minutes * minute;
  booking = o.duration_minutes * minute;
  cleaning = o.rules.cleaning_duration_minutes * minute;
  occupied = merge_intervals (map (λ c. c.interval) o.occupancies);
}

abbrev pub limit_of : StartTimeOptions → ℕ
limit_of o = elim o.limit [ none ↦ 96 | some n ↦ n ]

-- `options.notBefore !== undefined && options.notBefore > span.startAt ? … : …`
abbrev pub earliest_of : StartTimeOptions → ℕ
earliest_of o = elim o.not_before [
  | none ↦ o.span.start_at
  | some t ↦ if ltb o.span.start_at t then t else o.span.start_at
]

-- Each round moves the candidate on by a millisecond at least.
abbrev pub fuel_of : StartTimeOptions → ℕ
fuel_of o = o.span.end_at + 2

-- `suggestStartTimes`; `none` is the error of `ceilToInterval`.
unfoldable pub suggest_start_times : StartTimeOptions → Option (List ℕ)
unfolding suggest_loop ceil_to_interval merge_intervals Option.bind
suggest_start_times o =
    if ltb o.duration_minutes o.rules.minimum_booking_duration_minutes
    then some []
    else if ltb o.rules.maximum_booking_duration_minutes o.duration_minutes
    then some []
    else Option.bind
        (ceil_to_interval (earliest_of o) o.span.start_at o.rules.booking_interval_minutes)
        (λ candidate. suggest_loop (fuel_of o) (search_of o) candidate (limit_of o))

pub data SlotRejection : Type 0 where
  free overlaps_booking overlaps_block outside_hours : SlotRejection
  duration_out_of_bounds not_on_interval : SlotRejection

pub record SlotCheck : Type 0 where
  pub available : Bool
  pub reason : SlotRejection

abbrev pub refuse : SlotRejection → SlotCheck
refuse reason = record { available = false; reason = reason }

-- `conflict.kind === 'BLOCK' ? 'OVERLAPS_BLOCK' : 'OVERLAPS_BOOKING'`
abbrev pub rejection_of : OccupancyKind → SlotRejection
rejection_of OccupancyKind.block = overlaps_block
rejection_of OccupancyKind.booking = overlaps_booking

-- `checkSlot`
unfoldable pub check_slot : Interval → Interval → List Occupancy → BookingRules → SlotCheck
unfolding is_on_interval minutes_between
check_slot requested span occupancies rules =
    let duration = minutes_between requested.start_at requested.end_at in
    if ltb_ℤ duration (pos rules.minimum_booking_duration_minutes)
      || ltb_ℤ (pos rules.maximum_booking_duration_minutes) duration
    then refuse duration_out_of_bounds
    else if ltb requested.start_at span.start_at || ltb span.end_at requested.end_at
    then refuse outside_hours
    else if not (is_on_interval requested.start_at span.start_at rules.booking_interval_minutes)
    then refuse not_on_interval
    else let claim : Interval = record {
      start_at = requested.start_at;
      end_at = plus_minutes requested.end_at rules.cleaning_duration_minutes;
    } in
      elim (find? (λ (o : Occupancy). overlaps o.interval claim) occupancies) [
        | none ↦ record { available = true; reason = free }
        | some o ↦ refuse (rejection_of o.kind)
      ]

-- `bookableWindows`
unfoldable pub bookable_windows :
    Interval → List Occupancy → BookingRules → ℕ → Option ℕ → Option (List FreeWindow)
unfolding suggest_start_times
bookable_windows span occupancies rules duration_minutes not_before =
    Option.map
      (map (λ start. record {
        window = record { start_at = start; end_at = plus_minutes start duration_minutes };
        available_minutes = pos duration_minutes;
        is_gap = false;
      }))
      (suggest_start_times (record {
        span = span;
        occupancies = occupancies;
        rules = rules;
        duration_minutes = duration_minutes;
        not_before = not_before;
        limit = none;
      }))
