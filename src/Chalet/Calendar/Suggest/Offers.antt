-- ===== src/Chalet/Calendar/Suggest/Offers.antt =====
-- What `suggestStartTimes` offers.
use tamam.Chalet.Calendar.Suggest.{limit_of, earliest_of, ceil_on_grid, search_of, StartTimeOptions}
use tamam.Chalet.Calendar.Suggest.Loop.{Finds}
use tamam.Prelude.{ℕ, List, ◌≤◌, Option}

-- `durationMinutes` is within the bounds of the rules.
abbrev pub IsAllowed : StartTimeOptions → Type 0
IsAllowed o =
    (o.rules.minimum_booking_duration_minutes ≤ o.duration_minutes)
    × (o.duration_minutes ≤ o.rules.maximum_booking_duration_minutes)

-- Every start is on the grid from the opening, from the earliest one allowed on.
abbrev pub Offers : StartTimeOptions → Option (List ℕ) → Type 0
Offers o r =
    Finds (search_of o) (ceil_on_grid (search_of o).step o.span.start_at (earliest_of o))
      (limit_of o) r
