-- ===== src/Chalet/Service/Runs/Returns.antt =====
-- What the calls on a booking return, whatever the other bookings are.
use Prim.Native.String.{String}
use tamam.Chalet.Service.{Booking, BookingEventType, Tables, Chalet, Catalogue, BookingActor}
use tamam.Chalet.Service.Apart.{IsApart}
use tamam.Chalet.Service.Calls.{update_booking-returns, booking_of-found, asserted}
use tamam.Chalet.Service.Create.{chalet_of}
use tamam.Chalet.Service.Kept.{IsSameSlot, same_slot-apart}
use tamam.Chalet.Service.Slots.{
  confirmed_row-IsSameSlot, checked_in_row-IsSameSlot, checked_out_row-IsSameSlot,
  cancelled_row-IsSameSlot,
}
use tamam.Chalet.Service.Stay.{
  booking_of, store_status, confirm, confirm_guards, confirmed_row, cancel, cancel_guards,
  cancelled_row, cancellation_of, assert_transition, booking_event, is_guest,
}
use tamam.Chalet.Service.Table.{
  replace_row, update_booking, record_event, unhandled, is_lapsed_hold,
}
use tamam.Chalet.Service.Visit.{
  check_in, check_in_guards, checked_in_row, check_out, check_out_guards, checked_out_row,
  store_check_out, overstay_of, overstay_recorded, is_guest_or_owner,
}
use tamam.Chalet.Service.Runs.{Runs}
use tamam.Chalet.Service.Runs.Safe.{Runs-IsSound}
use tamam.Chalet.Service.Writes.{IsSound}
use tamam.Chalet.Service.Runs.Visits.{check_in_guards-parts}
use tamam.Prelude.{ℕ, refl, ◌∙◌, ◌≡◌, not, some}
use tamam.Shared.Enums.{ChaletBookingStatus}
use tamam.Shared.Errors.{
  Result, ok, err, ◌>>=◌, ◌>>◌, ErrorCode, throw_if, forbidden_error, conflict_error, then_ok,
}
use tamam.Shared.Text.{string_eq}

-- The tables with a row written anew.
abbrev pub with_row : Booking → Tables → Tables
with_row row tables = record tables { bookings = replace_row row tables.bookings }

-- What a change of the status commits.
abbrev pub settled : BookingEventType → BookingActor → Booking → Booking → Tables → Booking × Tables
settled type actor b row tables =
    (row, record_event (booking_event b type actor (some row.status)) (with_row row tables))

-- What a check-out commits.
abbrev pub settled_out : BookingActor → ℕ → Tables → Booking → Booking × Tables
settled_out actor now tables b =
    let charge = overstay_of b now in
    let row = checked_out_row b charge now in
    (
      row,
      record_event
          (booking_event b BookingEventType.check_out actor (some ChaletBookingStatus.checked_out))
          (overstay_recorded b actor charge (with_row row tables)),
    )

found_eq {ℓ κ} :
    {V : Type ℓ} {W : Type κ} (call : Result V) (next : V → Result W) (v : V)
    → call ≡ ok v
    → (call >>= next) ≡ next v
found_eq call next v h = rw h refl

then_congr {ℓ} :
    {W : Type ℓ} (guards : Result (Unit {0})) (m k : Result W)
    → (guards ≡ ok tt → m ≡ k)
    → (guards >> m) ≡ (guards >> k)
then_congr (ok u) m k f = f refl
then_congr (err e) m k f = refl

store_status-returns :
    (type : BookingEventType) (actor : BookingActor) (b row : Booking) (tables : Tables)
    (id : String)
    → IsApart tables.bookings
    → booking_of tables id ≡ ok b
    → IsSameSlot b row
    → store_status type actor b row tables ≡ ok (settled type actor b row tables)
unfolding store_status
store_status-returns type actor b row tables id apart found same =
    let free =
      same_slot-apart b row tables.bookings id apart (booking_of-found tables id b found) same in
    found_eq (update_booking unhandled row tables) _ (with_row row tables)
      (update_booking-returns unhandled row tables free)

module _ (actor : BookingActor) (id : String) (now : ℕ) (tables : Tables) (b : Booking)
    (apart : IsApart tables.bookings) (found : booking_of tables id ≡ ok b) where
  confirm-eq : confirm actor id now tables ≡ (
      confirm_guards actor now b
      >> ok (settled BookingEventType.confirmed actor b (confirmed_row b now) tables))
  unfolding confirm
  confirm-eq =
      found_eq (booking_of tables id) _ b found
      ∙ then_congr (confirm_guards actor now b) _ _ (λ passed.
        store_status-returns BookingEventType.confirmed actor b (confirmed_row b now) tables id
          apart found
          (confirmed_row-IsSameSlot b now (
            asserted _ _
              (then_ok
                (throw_if (not (is_guest b actor)) forbidden_error
                  >> throw_if (is_lapsed_hold now b) (conflict_error ErrorCode.offer_expired))
                (assert_transition b.status ChaletBookingStatus.confirmed) passed).1)))

  module _ (catalogue : Catalogue) (chalet : Chalet)
      (here : chalet_of catalogue b.chalet_id ≡ ok chalet) where
    check_in-eq : check_in catalogue actor id now tables ≡ (
        check_in_guards actor now chalet b
        >> ok (settled BookingEventType.check_in actor b (checked_in_row b now) tables))
    unfolding check_in
    check_in-eq =
        found_eq (booking_of tables id) _ b found
        ∙ found_eq (chalet_of catalogue b.chalet_id) _ chalet here
        ∙ then_congr (check_in_guards actor now chalet b) _ _ (λ passed.
          store_status-returns BookingEventType.check_in actor b (checked_in_row b now) tables id
            apart found
            (checked_in_row-IsSameSlot b now (check_in_guards-parts actor now chalet b passed).1))

    cancel-eq : cancel catalogue actor id now tables ≡ (
        cancel_guards actor chalet b
        >> ok (
          cancellation_of actor now chalet b,
          (settled BookingEventType.cancelled actor b (cancelled_row b actor now) tables).1,
        ))
    unfolding cancel
    cancel-eq =
        found_eq (booking_of tables id) _ b found
        ∙ found_eq (chalet_of catalogue b.chalet_id) _ chalet here
        ∙ then_congr (cancel_guards actor chalet b) _ _ (λ passed.
          found_eq
            (store_status BookingEventType.cancelled actor b (cancelled_row b actor now) tables) _
            (settled BookingEventType.cancelled actor b (cancelled_row b actor now) tables)
            (store_status-returns BookingEventType.cancelled actor b (cancelled_row b actor now)
              tables id apart found (cancelled_row-IsSameSlot b actor now)))

    check_out-eq :
        check_out catalogue actor id now tables
        ≡ (check_out_guards actor chalet b >> ok (settled_out actor now tables b))
    unfolding check_out store_check_out
    check_out-eq =
        let row = checked_out_row b (overstay_of b now) now in
        found_eq (booking_of tables id) _ b found
        ∙ found_eq (chalet_of catalogue b.chalet_id) _ chalet here
        ∙ then_congr (check_out_guards actor chalet b) _ _ (λ passed.
          found_eq (update_booking unhandled row tables) _ (with_row row tables) (
            update_booking-returns unhandled row tables (
              same_slot-apart b row tables.bookings id apart (booking_of-found tables id b found) (
                checked_out_row-IsSameSlot b (overstay_of b now) now (
                  asserted _ _
                    (then_ok (throw_if (not (is_guest_or_owner chalet b actor)) forbidden_error)
                      (assert_transition b.status ChaletBookingStatus.checked_out) passed).1)))))

-- The four calls that change the status of a booking, by their conditions alone: no other booking
-- ever stands in their way.
abbrev pub AllReturn : Catalogue → BookingActor → String → ℕ → Tables → Booking → Chalet → Type 0
AllReturn catalogue actor id now tables b chalet =
    (confirm actor id now tables ≡ (
      confirm_guards actor now b
      >> ok (settled BookingEventType.confirmed actor b (confirmed_row b now) tables)))
    × (check_in catalogue actor id now tables ≡ (
        check_in_guards actor now chalet b
        >> ok (settled BookingEventType.check_in actor b (checked_in_row b now) tables)))
    × (check_out catalogue actor id now tables
        ≡ (check_out_guards actor chalet b >> ok (settled_out actor now tables b)))
    × (cancel catalogue actor id now tables ≡ (
        cancel_guards actor chalet b
        >> ok (
          cancellation_of actor now chalet b,
          (settled BookingEventType.cancelled actor b (cancelled_row b actor now) tables).1,
        )))

-- After any calls, on a booking and its chalet that are found, confirm, checkIn, checkOut and cancel
-- each return exactly when their own conditions pass, with the row and the event of that change, and
-- otherwise throw what their conditions throw: the constraint of the calendar never refuses them.
pub Runs-AllReturn :
    (catalogue : Catalogue) (first tables : Tables) (actor : BookingActor) (id : String) (now : ℕ)
    (b : Booking) (chalet : Chalet)
    → IsSound first.bookings
    → Runs catalogue first tables
    → booking_of tables id ≡ ok b
    → chalet_of catalogue b.chalet_id ≡ ok chalet
    → AllReturn catalogue actor id now tables b chalet
Runs-AllReturn catalogue first tables actor id now b chalet sound runs found here =
    let (apart, _) = Runs-IsSound catalogue first tables sound runs in
    (
      confirm-eq actor id now tables b apart found,
      check_in-eq actor id now tables b apart found catalogue chalet here,
      check_out-eq actor id now tables b apart found catalogue chalet here,
      cancel-eq actor id now tables b apart found catalogue chalet here,
    )
