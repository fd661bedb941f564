-- ===== src/Chalet/Service/Table.antt =====
-- The writes of chalet-booking.service.ts as the database takes them: the trigger and the exclusion
-- constraint of apps/api/prisma/sql/002_chalet.sql, and the reads of chalet-availability.service.ts.
use Prim.Native.String.{String}
use tamam.Chalet.Calendar.{Interval, Occupancy, OccupancyKind, plus_minutes, minute}
use tamam.Chalet.Calendar.Suggest.{SlotCheck, check_slot}
use tamam.Chalet.Service.{Booking, BookingEvent, Tables, Chalet}
use tamam.Prelude.{
  ℕ, ◌-◌, ◌*◌, ltb, leb, Bool, true, false, ◌&&◌, ◌||◌, not, List, [], ◌∷◌, ◌++◌, map, Option, none,
  some, if◌then◌else◌,
}
use tamam.Prelude.Data.{◌===◌}
use tamam.Prelude.Lists.{any, filter, includes}
use tamam.Shared.Enums.{ChaletBookingStatus, booking_status_eq}
use tamam.Shared.Errors.{
  Result, ok, AppException, throw_if, ◌>>◌, ◌>>=◌, conflict_error, internal_error, ErrorCode,
}
use tamam.Shared.Text.{string_eq}

-- `CHALET_SLOT_HOLDING_STATUSES`
abbrev pub slot_holding_statuses : List ChaletBookingStatus
slot_holding_statuses =
    ChaletBookingStatus.held ∷ ChaletBookingStatus.awaiting_payment ∷ ChaletBookingStatus.confirmed
    ∷ ChaletBookingStatus.check_in_ready ∷ ChaletBookingStatus.checked_in
    ∷ ChaletBookingStatus.in_progress ∷ ChaletBookingStatus.checked_out
    ∷ ChaletBookingStatus.cleaning ∷ []

abbrev pub holds_slot : Booking → Bool
holds_slot b = includes slot_holding_statuses b.status

-- `chalet_bookings_no_overlap`: two rows of one chalet that hold their slots and whose ranges meet.
unfoldable pub clashes : Booking → Booking → Bool
clashes a b =
    (holds_slot a && holds_slot b)
    && (a.chalet_id === b.chalet_id
        && (ltb a.start_at b.blocked_until && ltb b.start_at a.blocked_until))

-- What the database refuses beside a row: its primary key, or a clash.
abbrev pub refuses : Booking → Booking → Bool
refuses a b = a.id === b.id || clashes a b

-- The exception of a refusal that `write` does not translate: not the service's own.
abbrev pub unhandled : AppException
unhandled = record { code = internal_error; status = 500 }

-- `tamam_sync_chalet_booking_block`; the duration of a row is the one that the service writes.
unfoldable pub synced : Booking → Result Booking
synced b =
    throw_if (leb b.end_at b.start_at) unhandled
    >> ok (record b { blocked_until = plus_minutes b.end_at b.cleaning_duration_minutes })

-- `write`: what the caller of a write gets for the overlap rejection.
abbrev pub slot_taken : AppException
slot_taken = conflict_error ErrorCode.conflict

-- `create` under `write`, which translates the overlap and not a key that is taken.
unfoldable pub create_booking : Booking → Tables → Result (Booking × Tables)
unfolding synced clashes
create_booking row tables = synced row >>= λ made.
    throw_if (any (λ b. made.id === b.id) tables.bookings) unhandled
    >> throw_if (any (clashes made) tables.bookings) slot_taken
    >> ok (made, record tables { bookings = made ∷ tables.bookings })

abbrev pub others : String → List Booking → List Booking
others id bookings = filter (λ b. not (b.id === id)) bookings

-- The row with the id, written anew.
unfoldable pub replace_row : Booking → List Booking → List Booking
replace_row row [] = []
replace_row row (b ∷ rest) =
    let later = replace_row row rest in if b.id === row.id then row ∷ rest else b ∷ later

-- `update` of a row, past the trigger, with the exception that a rejection is.
unfoldable pub update_booking : AppException → Booking → Tables → Result Tables
unfolding clashes replace_row
update_booking rejection row tables =
    throw_if (any (clashes row) (others row.id tables.bookings)) rejection
    >> ok (record tables { bookings = replace_row row tables.bookings })

-- `recordEvent`
abbrev pub record_event : BookingEvent → Tables → Tables
record_event event tables = record tables { events = tables.events ++ event ∷ [] }

-- `holdExpiresAt: { lte: now }`
abbrev pub lapsed_by : ℕ → Option ℕ → Bool
lapsed_by now none = false
lapsed_by now (some t) = leb t now

-- `status === HELD` and a hold that has run out
abbrev pub is_lapsed_hold : ℕ → Booking → Bool
is_lapsed_hold now b = b.status === ChaletBookingStatus.held && lapsed_by now b.hold_expires_at

abbrev pub expired_row : Booking → Booking
expired_row b = record b { status = ChaletBookingStatus.expired; hold_expires_at = none }

abbrev pub expire_if : (Booking → Bool) → Booking → Booking
expire_if p b = if p b then expired_row b else b

-- `expireLapsedHolds`
unfoldable pub expire_lapsed_holds : String → ℕ → Tables → Tables
expire_lapsed_holds chalet now tables = record tables {
  bookings = map (expire_if (λ b. b.chalet_id === chalet && is_lapsed_hold now b)) tables.bookings;
}

-- `holdExpiresAt: { gt: now }`
abbrev pub runs_past : ℕ → Option ℕ → Bool
runs_past now none = false
runs_past now (some t) = ltb now t

-- The rows of `occupanciesBetween`: those that hold their slots but for a lapsed hold.
abbrev pub occupies : String → Interval → Option String → ℕ → Booking → Bool
occupies chalet window excluded now b =
    b.chalet_id === chalet
    && (ltb b.start_at window.end_at
        && ltb window.start_at b.blocked_until
        && ((holds_slot b && not (b.status === ChaletBookingStatus.held)
              || b.status === ChaletBookingStatus.held && runs_past now b.hold_expires_at)
            && elim excluded [ none ↦ true | some id ↦ not (b.id === id) ]))

-- `occupanciesBetween`
unfoldable pub occupancies_between : Chalet → Interval → Option String → ℕ → Tables → List Occupancy
occupancies_between chalet window excluded now tables =
    map
      (λ b. record {
        interval = record { start_at = b.start_at; end_at = b.blocked_until };
        kind = OccupancyKind.booking;
      })
      (filter (occupies chalet.id window excluded now) tables.bookings)
    ++ map (λ i. record { interval = i; kind = OccupancyKind.block })
        (filter (λ i. ltb i.start_at window.end_at && ltb window.start_at i.end_at) chalet.blocks)

-- `checkWindow`, without the alternatives; `-` stops at the epoch.
unfoldable pub check_window : Chalet → Interval → Option String → ℕ → Tables → SlotCheck
unfolding occupancies_between check_slot
check_window chalet requested excluded now tables =
    let span = chalet.span_of requested.start_at in
    let cleaning = chalet.rules.cleaning_duration_minutes in
    let window : Interval = record {
      start_at = span.start_at - cleaning * minute;
      end_at = plus_minutes span.end_at cleaning;
    } in
    check_slot requested span (occupancies_between chalet window excluded now tables) chalet.rules
