-- ===== src/Chalet/Service/Visit.antt =====
-- `checkIn`, `checkOut`, `extend` and `expireHolds` of
-- apps/api/src/modules/chalet/chalet-booking.service.ts.
use Prim.Native.String.{String}
use tamam.Chalet.Bookings.{
  can_transition, extendable, OverstayPolicy, OverstayCharge, overstay_charge,
}
use tamam.Chalet.Calendar.{plus_minutes, minutes_between, minute}
use tamam.Chalet.Service.{
  Booking, BookingEvent, BookingEventType, Tables, Chalet, Catalogue, BookingActor,
}
use tamam.Chalet.Service.Create.{chalet_of}
use tamam.Chalet.Service.Stay.{booking_of, is_guest, assert_transition, booking_event, store_status}
use tamam.Chalet.Service.Table.{
  expire_lapsed_holds, check_window, synced, update_booking, record_event, unhandled, slot_taken,
  is_lapsed_hold, expire_if,
}
use tamam.Prelude.{
  ℕ, ◌+◌, ◌*◌, ◌/◌, ltb, leb, Bool, ◌||◌, not, List, ◌++◌, map, none, some, if◌then◌else◌,
}
use tamam.Prelude.Data.{◌===◌}
use tamam.Prelude.Int.{pos, pos_part, ltb_ℤ, equals_ℤ}
use tamam.Prelude.Lists.{filter, includes}
use tamam.Shared.Enums.{ChaletBookingStatus, booking_status_eq}
use tamam.Shared.Errors.{
  Result, ok, ErrorCode, throw_if, ◌>>◌, ◌>>=◌, bad_request, conflict_error, forbidden_error,
  invalid_transition,
}
use tamam.Shared.Text.{string_eq}

-- `CHECK_IN_WINDOW_MINUTES`
abbrev pub check_in_window_minutes : ℕ
check_in_window_minutes = 30

-- The customer of the booking or the owner of the chalet.
abbrev pub is_guest_or_owner : Chalet → Booking → BookingActor → Bool
is_guest_or_owner chalet b actor = is_guest b actor || chalet.owner_id === actor.id

abbrev pub checked_in_row : Booking → ℕ → Booking
checked_in_row b now = record b {
  status = ChaletBookingStatus.checked_in;
  checked_in_at = some now;
  version = b.version + 1;
}

-- The conditions of `checkIn`.
abbrev pub check_in_guards : BookingActor → ℕ → Chalet → Booking → Result (Unit {0})
check_in_guards actor now chalet b =
    throw_if (not (is_guest_or_owner chalet b actor)) forbidden_error
    >> assert_transition b.status ChaletBookingStatus.checked_in
    >> throw_if (ltb (now + check_in_window_minutes * minute) b.start_at) invalid_transition
    >> throw_if (leb b.end_at now) invalid_transition

-- `checkIn`
unfoldable pub check_in : Catalogue → BookingActor → String → ℕ → Tables → Result (Booking × Tables)
unfolding can_transition store_status
check_in catalogue actor id now tables = booking_of tables id >>= λ b.
    chalet_of catalogue b.chalet_id >>= λ chalet.
    check_in_guards actor now chalet b
    >> store_status BookingEventType.check_in actor b (checked_in_row b now) tables

-- `DEFAULT_OVERSTAY_POLICY`
abbrev pub default_overstay_policy : OverstayPolicy
default_overstay_policy = record {
  grace_minutes = 15;
  surcharge_multiplier = 1_500_000;
  billing_block_minutes = 30;
}

-- `(booking.totalAmountMinor * 60n) / BigInt(booking.bookingDurationMinutes)`; a duration of a row
-- is not negative.
abbrev pub hourly_rate_of : Booking → ℕ
hourly_rate_of b =
    if equals_ℤ b.booking_duration_minutes (pos 0)
    then 0
    else b.total_amount_minor * 60 / pos_part b.booking_duration_minutes

-- `Math.max(0, minutesBetween(booking.endAt, now))`
abbrev pub minutes_late : Booking → ℕ → ℕ
minutes_late b now = pos_part (minutes_between b.end_at now)

unfoldable pub overstay_of : Booking → ℕ → OverstayCharge
unfolding overstay_charge minutes_between
overstay_of b now = overstay_charge (minutes_late b now) (hourly_rate_of b) default_overstay_policy

abbrev pub checked_out_row : Booking → OverstayCharge → ℕ → Booking
checked_out_row b charge now = record b {
  status = ChaletBookingStatus.checked_out;
  checked_out_at = some now;
  overstay_minutes = charge.billed_minutes;
  overstay_fee_minor = charge.fee_minor;
  total_amount_minor = b.total_amount_minor + charge.fee_minor;
  version = b.version + 1;
}

-- The event of an overstay, before the one of the check-out.
abbrev pub overstay_recorded : Booking → BookingActor → OverstayCharge → Tables → Tables
overstay_recorded b actor charge tables =
    if ltb 0 charge.billed_minutes
    then record_event (booking_event b BookingEventType.overstay actor none) tables
    else tables

-- The write of `checkOut` and its events.
unfoldable pub store_check_out :
    BookingActor → Booking → OverstayCharge → ℕ → Tables → Result (Booking × Tables)
unfolding update_booking
store_check_out actor b charge now tables =
    update_booking unhandled (checked_out_row b charge now) tables >>= λ stored. ok (
      checked_out_row b charge now,
      record_event
          (booking_event b BookingEventType.check_out actor (some ChaletBookingStatus.checked_out))
          (overstay_recorded b actor charge stored),
    )

-- The conditions of `checkOut`.
abbrev pub check_out_guards : BookingActor → Chalet → Booking → Result (Unit {0})
check_out_guards actor chalet b =
    throw_if (not (is_guest_or_owner chalet b actor)) forbidden_error
    >> assert_transition b.status ChaletBookingStatus.checked_out

-- `checkOut`
unfoldable pub check_out :
    Catalogue → BookingActor → String → ℕ → Tables → Result (Booking × Tables)
unfolding can_transition overstay_of store_check_out
check_out catalogue actor id now tables = booking_of tables id >>= λ b.
    chalet_of catalogue b.chalet_id >>= λ chalet.
    check_out_guards actor chalet b >> store_check_out actor b (overstay_of b now) now tables

abbrev pub extended_row : Booking → ℕ → ℕ → Booking
extended_row b new_end extra = record b {
  end_at = new_end;
  booking_duration_minutes = minutes_between b.start_at new_end;
  total_amount_minor = b.total_amount_minor + extra;
  version = b.version + 1;
}

-- The write of `extend`, past the trigger.
unfoldable pub store_extension : BookingActor → Booking → Tables → Result (Booking × Tables)
unfolding synced update_booking
store_extension actor row tables = synced row >>= λ made.
    update_booking slot_taken made tables >>= λ stored.
    ok (made, record_event (booking_event row BookingEventType.extended actor none) stored)

-- `extend` once the lapsed holds are released.
unfoldable pub extend_to :
    Catalogue → Chalet → BookingActor → Booking → ℕ → ℕ → Tables → Result (Booking × Tables)
unfolding check_window store_extension
extend_to catalogue chalet actor b new_end now tables =
    throw_if
      (not
        (check_window chalet (record { start_at = b.start_at; end_at = new_end }) (some b.id) now
          tables).available)
      (conflict_error ErrorCode.conflict)
    >> catalogue.quote_subtotal tables chalet (record { start_at = b.end_at; end_at = new_end })
        none now
    >>= λ extra. store_extension actor (extended_row b new_end extra) tables

-- The conditions of `extend` before it releases the lapsed holds.
abbrev pub extend_guards : BookingActor → ℕ → Chalet → Booking → Result (Unit {0})
extend_guards actor additional_minutes chalet b =
    throw_if (not (is_guest b actor)) forbidden_error
    >> throw_if (not (includes extendable b.status)) invalid_transition
    >> throw_if
        (ltb_ℤ (pos chalet.rules.maximum_booking_duration_minutes)
          (minutes_between b.start_at (plus_minutes b.end_at additional_minutes)))
        (bad_request ErrorCode.validation_failed)

-- `extend`
unfoldable pub extend :
    Catalogue → BookingActor → String → ℕ → ℕ → Tables → Result (Booking × Tables)
unfolding minutes_between extend_to expire_lapsed_holds
extend catalogue actor id additional_minutes now tables = booking_of tables id >>= λ b.
    chalet_of catalogue b.chalet_id >>= λ chalet.
    extend_guards actor additional_minutes chalet b
    >> extend_to catalogue chalet actor b (plus_minutes b.end_at additional_minutes) now
        (expire_lapsed_holds b.chalet_id now tables)

-- The read of `expireHolds`.
unfoldable pub lapsed_holds : ℕ → Tables → List String
lapsed_holds now tables = map (λ (b : Booking). b.id) (filter (is_lapsed_hold now) tables.bookings)

abbrev pub expired_event : String → BookingEvent
expired_event id = record {
  booking_id = id;
  event_type = BookingEventType.expired;
  actor_id = none;
  from_status = some ChaletBookingStatus.held;
  to_status = some ChaletBookingStatus.expired;
}

-- The transaction of `expireHolds`, on the ids that it has read.
unfoldable pub release_holds : List String → Tables → Tables
release_holds ids tables = record tables {
  bookings = map (expire_if (λ b. includes ids b.id)) tables.bookings;
  events = tables.events ++ map expired_event ids;
}
