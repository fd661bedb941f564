-- ===== src/Chalet/Calendar.antt =====
-- apps/api/src/modules/chalet/domain/availability.ts: what a customer can still book. An instant
-- (`Date`) is its number of milliseconds since the epoch, and is not before it; durations in
-- minutes are natural numbers, as the schemas of the API require.
pub mod Merge
pub mod Free
pub mod Suggest
use tamam.Prelude.{
  ◌/◌, ◌-◌, true, ◌*◌, false, ltb, ◌&&◌, ◌+◌, if◌then◌else◌, ℕ, leb, Bool, List, [], ◌∷◌, Option,
  none, some,
}
use tamam.Prelude.Int.{negsuc, pos, ℤ}
use tamam.Prelude.Lists.{filter}

-- A half-open interval of instants.
pub record Interval : Type 0 where
  pub start_at : ℕ
  pub end_at : ℕ

pub data OccupancyKind : Type 0 where
  booking block : OccupancyKind

pub record Occupancy : Type 0 where
  pub interval : Interval
  pub open interval use *
  pub kind : OccupancyKind

pub record BookingRules : Type 0 where
  pub booking_interval_minutes : ℕ
  pub minimum_booking_duration_minutes : ℕ
  pub maximum_booking_duration_minutes : ℕ
  pub cleaning_duration_minutes : ℕ

pub record FreeWindow : Type 0 where
  pub window : Interval
  pub open window use *
  pub available_minutes : ℤ
  pub is_gap : Bool

-- `MINUTE`
abbrev pub minute : ℕ
minute = 60_000

-- `Math.round((b - a) / MINUTE)`: the floor of the quotient after half a minute is added.
unfoldable pub minutes_between : ℕ → ℕ → ℤ
minutes_between a b =
    if leb a (b + 30_000)
    then pos ((b + 30_000 - a) / minute)
    else negsuc ((a - (b + 30_000) - 1) / minute)

-- `plusMinutes`
abbrev pub plus_minutes : ℕ → ℕ → ℕ
plus_minutes d m = d + m * minute

abbrev pub overlaps : Interval → Interval → Bool
overlaps a b = ltb a.start_at b.end_at && ltb b.start_at a.end_at

-- `sort` by start: stable.
unfoldable pub insert_by_start : Interval → List Interval → List Interval
insert_by_start i [] = i ∷ []
insert_by_start i (j ∷ rest) =
    if leb i.start_at j.start_at then i ∷ j ∷ rest else j ∷ insert_by_start i rest

unfoldable pub sort_by_start : List Interval → List Interval
unfolding insert_by_start
sort_by_start [] = []
sort_by_start (i ∷ rest) = insert_by_start i (sort_by_start rest)

-- The loop of `mergeIntervals`: `last` is the interval that was pushed last.
unfoldable pub merge_onto : Interval → List Interval → List Interval
merge_onto last [] = last ∷ []
merge_onto last (current ∷ rest) = elim (leb current.start_at last.end_at) [
  | true ↦
      merge_onto
        (if ltb last.end_at current.end_at then record last { end_at = current.end_at } else last)
        rest
  | false ↦ last ∷ merge_onto current rest
]

unfoldable pub merge_sorted : List Interval → List Interval
unfolding merge_onto
merge_sorted [] = []
merge_sorted (i ∷ rest) = merge_onto i rest

abbrev pub is_proper : Interval → Bool
is_proper i = ltb i.start_at i.end_at

-- `mergeIntervals`
unfoldable pub merge_intervals : List Interval → List Interval
unfolding merge_sorted sort_by_start
merge_intervals intervals = merge_sorted (sort_by_start (filter is_proper intervals))

-- `makeWindow`
unfoldable pub make_window : ℕ → ℕ → Bool → Bool → FreeWindow
unfolding minutes_between
make_window start end occupied_before occupied_after = record {
  window = record { start_at = start; end_at = end };
  available_minutes = minutes_between start end;
  is_gap = occupied_before && occupied_after;
}

-- The loop of `freeWindows`, at the index of the next occupied interval, and the window after it.
unfoldable pub free_loop : ℕ → ℕ → ℕ → List Interval → List FreeWindow
unfolding make_window
free_loop span_end index cursor [] =
    if ltb cursor span_end then make_window cursor span_end (ltb 0 index) false ∷ [] else []
free_loop span_end index cursor (occupied ∷ rest) =
    let gap_end = if ltb occupied.start_at span_end then occupied.start_at else span_end in
    let later =
      free_loop span_end (index + 1)
        (if ltb cursor occupied.end_at then occupied.end_at else cursor) rest in
    if ltb cursor gap_end then make_window cursor gap_end (ltb 0 index) true ∷ later else later

-- `freeWindows`
unfoldable pub free_windows : Interval → List Interval → List FreeWindow
unfolding free_loop merge_intervals
free_windows span occupancies =
    free_loop span.end_at 0 span.start_at
      (filter (λ o. overlaps o span) (merge_intervals occupancies))
