-- ===== src/Chalet/Service/Stay.antt =====
-- The calls on a booking that exists, of apps/api/src/modules/chalet/chalet-booking.service.ts:
-- `confirm`, `cancel`, `extend`, `checkIn`, `checkOut` and `expireHolds`.
use Prim.Native.String.{String}
use tamam.Chalet.Bookings.{
  can_transition, cancellable_by_customer, CancellationPolicy, refund_percent_for,
}
use tamam.Chalet.Calendar.{minutes_between}
use tamam.Chalet.Service.{
  Booking, BookingEvent, BookingEventType, Tables, Chalet, Catalogue, BookingActor, StoredPolicy,
}
use tamam.Chalet.Service.Create.{chalet_of}
use tamam.Chalet.Service.Table.{update_booking, record_event, unhandled, is_lapsed_hold}
use tamam.Money.{one, percent_of}
use tamam.Prelude.{ℕ, ◌+◌, ◌*◌, Bool, false, ◌&&◌, not, Option, none, some, if◌then◌else◌}
use tamam.Prelude.Data.{◌===◌}
use tamam.Prelude.Int.{ℤ, pos}
use tamam.Prelude.Lists.{find?, includes}
use tamam.Shared.Enums.{ChaletBookingStatus, booking_status_eq}
use tamam.Shared.Errors.{
  Result, ok, ErrorCode, throw_if, or_throw, ◌>>◌, ◌>>=◌, conflict_error, not_found_error,
  forbidden_error, invalid_transition,
}
use tamam.Shared.Text.{string_eq}

abbrev pub booking_of : Tables → String → Result Booking
booking_of tables id = or_throw (find? (λ b. b.id === id) tables.bookings) not_found_error

-- `booking.customerId === actor.user.id`
abbrev pub is_guest : Booking → BookingActor → Bool
is_guest b actor = elim b.customer_id [ none ↦ false | some id ↦ id === actor.id ]

-- `assertTransition`
abbrev pub assert_transition : ChaletBookingStatus → ChaletBookingStatus → Result (Unit {0})
assert_transition from to = throw_if (not (can_transition from to)) invalid_transition

abbrev pub booking_event :
    Booking → BookingEventType → BookingActor → Option ChaletBookingStatus → BookingEvent
booking_event b type actor to = record {
  booking_id = b.id;
  event_type = type;
  actor_id = some actor.id;
  from_status = elim to [ none ↦ none | some _ ↦ some b.status ];
  to_status = to;
}

-- An update that changes the status, and its event.
unfoldable pub store_status :
    BookingEventType → BookingActor → Booking → Booking → Tables → Result (Booking × Tables)
unfolding update_booking
store_status type actor before row tables = update_booking unhandled row tables >>= λ stored.
    ok (row, record_event (booking_event before type actor (some row.status)) stored)

abbrev pub confirmed_row : Booking → ℕ → Booking
confirmed_row b now = record b {
  status = ChaletBookingStatus.confirmed;
  hold_expires_at = none;
  confirmed_at = some now;
  version = b.version + 1;
}

-- The conditions of `confirm`; what it writes of a lapsed hold is rolled back by the exception that
-- follows.
abbrev pub confirm_guards : BookingActor → ℕ → Booking → Result (Unit {0})
confirm_guards actor now b =
    throw_if (not (is_guest b actor)) forbidden_error
    >> throw_if (is_lapsed_hold now b) (conflict_error ErrorCode.offer_expired)
    >> assert_transition b.status ChaletBookingStatus.confirmed

-- `confirm`
unfoldable pub confirm : BookingActor → String → ℕ → Tables → Result (Booking × Tables)
unfolding can_transition store_status
confirm actor id now tables = booking_of tables id >>= λ b.
    confirm_guards actor now b
    >> store_status BookingEventType.confirmed actor b (confirmed_row b now) tables

-- `DEFAULT_CANCELLATION_POLICY`
abbrev pub default_cancellation_policy : CancellationPolicy
default_cancellation_policy = record {
  free_cancellation_hours = 48;
  refund_percent_after_window = 50;
}

abbrev number_or : Option ℕ → ℕ → ℕ
number_or none fallback = fallback
number_or (some n) fallback = n

-- `cancellationPolicy`
abbrev pub cancellation_policy_of : Option StoredPolicy → CancellationPolicy
cancellation_policy_of none = default_cancellation_policy
cancellation_policy_of (some stored) = record {
  free_cancellation_hours =
      number_or stored.stored_hours default_cancellation_policy.free_cancellation_hours;
  refund_percent_after_window =
      number_or stored.stored_percent default_cancellation_policy.refund_percent_after_window;
}

abbrev pub cancelled_row : Booking → BookingActor → ℕ → Booking
cancelled_row b actor now = record b {
  status = ChaletBookingStatus.cancelled;
  hold_expires_at = none;
  cancelled_at = some now;
  cancelled_by = some actor.id;
  version = b.version + 1;
}

pub record Cancellation : Type 0 where
  pub booking : Booking
  pub refund_percent : ℕ
  pub refund_minor : ℤ

-- The share that a cancellation gives back.
unfoldable pub refund_share : Chalet → Booking → BookingActor → ℕ → ℕ
unfolding refund_percent_for minutes_between
refund_share chalet b actor now =
    if chalet.owner_id === actor.id && not (is_guest b actor)
    then 100
    else refund_percent_for (cancellation_policy_of chalet.cancellation_policy)
        (minutes_between now b.start_at)

-- The conditions of `cancel`.
abbrev pub cancel_guards : BookingActor → Chalet → Booking → Result (Unit {0})
cancel_guards actor chalet b =
    throw_if
      (not (is_guest b actor) && (not (chalet.owner_id === actor.id) && not actor.is_super_admin))
      forbidden_error
    >> throw_if (not (includes cancellable_by_customer b.status)) invalid_transition

-- What `cancel` returns.
abbrev pub cancellation_of : BookingActor → ℕ → Chalet → Booking → Cancellation
cancellation_of actor now chalet b = record {
  booking = cancelled_row b actor now;
  refund_percent = refund_share chalet b actor now;
  refund_minor = percent_of (pos b.total_amount_minor) (refund_share chalet b actor now * one);
}

-- `cancel`
unfoldable pub cancel :
    Catalogue → BookingActor → String → ℕ → Tables → Result (Cancellation × Tables)
unfolding refund_share store_status
cancel catalogue actor id now tables = booking_of tables id >>= λ b.
    chalet_of catalogue b.chalet_id >>= λ chalet.
    cancel_guards actor chalet b
    >> (store_status BookingEventType.cancelled actor b (cancelled_row b actor now) tables
        >>= λ stored. ok (cancellation_of actor now chalet b, stored.1))
