-- ===== src/Chalet/Tests.antt =====
-- The theorems on the calendar at a concrete day.
use tamam.Chalet.Calendar.{OccupancyKind, minute, free_windows, BookingRules, Interval}
use tamam.Chalet.Calendar.Free.{free_windows-open_at, open_at}
use tamam.Chalet.Calendar.Merge.{covers, contains}
use tamam.Chalet.Calendar.Suggest.{search_of, suggest_loop, StartTimeOptions}
use tamam.Chalet.Calendar.Suggest.Fuel.{suggest_loop-ends}
use tamam.Chalet.Calendar.Suggest.Offers.{Offers}
use tamam.Prelude.{refl, not, ◌&&◌, arith, some, ◌≡◌, [], map, ◌∷◌, ◌*◌, ℕ, List}
use tamam.Shared.Enums.{booking_status_eq}

abbrev interval : ℕ → ℕ → Interval
interval a b = record { start_at = a * minute; end_at = b * minute }

abbrev day : Interval
day = interval 600 1200

abbrev taken : List Interval
taken = interval 900 960 ∷ interval 660 720 ∷ interval 700 780 ∷ []

free_windows-open_at_example :
    open_at (free_windows day taken) (800 * minute)
    ≡ (contains (800 * minute) day && not (covers taken (800 * minute)))
free_windows-open_at_example = free_windows-open_at day taken (800 * minute)

abbrev rules : BookingRules
rules = record {
  booking_interval_minutes = 30;
  minimum_booking_duration_minutes = 60;
  maximum_booking_duration_minutes = 600;
  cleaning_duration_minutes = 15;
}

abbrev evening : StartTimeOptions
evening = record {
  span = day;
  occupancies = map (λ i. record { interval = i; kind = OccupancyKind.booking }) taken;
  rules = rules;
  duration_minutes = 90;
  not_before = some (615 * minute);
  limit = some 3;
}

suggest_loop-ends_example :
    (ts : List ℕ) × (suggest_loop 72_000_002 (search_of evening) (630 * minute) 3 ≡ some ts)
    × (suggest_loop 99_000_000 (search_of evening) (630 * minute) 3 ≡ some ts)
suggest_loop-ends_example =
    suggest_loop-ends (search_of evening) 72_000_002 99_000_000 (630 * minute) 3 (omega arith)
      (1, refl) (omega arith) (omega arith) (omega arith)
