-- ===== src/Chalet/Service/Runs/Visits.antt =====
-- What the calls that create, extend and end a stay write.
use Prim.Native.String.{String}
use tamam.Chalet.Bookings.{can_transition, OverstayCharge}
use tamam.Chalet.Calendar.{plus_minutes, minute}
use tamam.Chalet.Service.{Booking, BookingEventType, Tables, Chalet, Catalogue, BookingActor}
use tamam.Chalet.Service.Calls.{
  update_booking-parts, create_booking-parts, store_status-parts, booking_of-found, asserted,
  changed_to, found_at_chalet,
}
use tamam.Chalet.Service.Create.{
  hold_checks, owner_guards, HoldInput, ExternalInput, chalet_of, check_chalet, hold, hold_slot,
  create_external, write_external, counted, held_booking, external_booking,
}
use tamam.Chalet.Service.Slots.{checked_in_row-IsSameSlot, checked_out_row-IsSameSlot}
use tamam.Chalet.Service.Stay.{booking_of, store_status, assert_transition}
use tamam.Chalet.Service.Table.{
  synced, update_booking, create_booking, expire_lapsed_holds, slot_taken, unhandled,
  is_lapsed_hold, check_window,
}
use tamam.Chalet.Service.Visit.{
  overstay_recorded, is_guest_or_owner, check_in_window_minutes, check_in, check_in_guards,
  checked_in_row, check_out, check_out_guards, checked_out_row, store_check_out, overstay_of,
  extend, extend_guards, extended_row, extend_to, store_extension,
}
use tamam.Chalet.Service.Writes.{Writes, unchanged, inserted, moved, expired}
use tamam.Prelude.{
  ℕ, ◌+◌, ◌*◌, leb, refl, sym, ap, ◌∙◌, ◌≡◌, true, false, not, List, some, none, ltb, Bool-cases,
  inl, inr, ◌&&◌,
}
use tamam.Prelude.Data.{◌===◌}
use tamam.Shared.Enums.{ChaletBookingStatus}
use tamam.Shared.Errors.{
  ErrorCode, conflict_error, bad_request, ok, ◌>>◌, all_ok, bind_ok, then_ok, throw_if, throw_if-ok,
  throw_unless-ok, ok-injective, forbidden_error, invalid_transition,
}
use tamam.Shared.Text.{string_eq}

pub check_in-parts :
    (catalogue : Catalogue) (actor : BookingActor) (id : String) (now : ℕ) (tables : Tables)
    (result : Booking × Tables)
    → check_in catalogue actor id now tables ≡ ok result
    → (b : Booking) × (chalet : Chalet) × (booking_of tables id ≡ ok b)
      × (chalet_of catalogue b.chalet_id ≡ ok chalet)
      × (check_in_guards actor now chalet b ≡ ok tt)
      × (store_status BookingEventType.check_in actor b (checked_in_row b now) tables ≡ ok result)
unfolding check_in
check_in-parts catalogue actor id now tables result h =
    found_at_chalet (booking_of tables id) (λ b. chalet_of catalogue b.chalet_id)
      (check_in_guards actor now)
      (λ chalet b. store_status BookingEventType.check_in actor b (checked_in_row b now) tables)
      result h

-- What the guards of a check-in say.
pub check_in_guards-parts :
    (actor : BookingActor) (now : ℕ) (chalet : Chalet) (b : Booking)
    → check_in_guards actor now chalet b ≡ ok tt
    → (is_guest_or_owner chalet b actor ≡ true)
      × (can_transition b.status ChaletBookingStatus.checked_in ≡ true)
      × (ltb (now + check_in_window_minutes * minute) b.start_at ≡ false)
      × (leb b.end_at now ≡ false)
check_in_guards-parts actor now chalet b h =
    let is_there = throw_if (not (is_guest_or_owner chalet b actor)) forbidden_error in
    let moves = assert_transition b.status ChaletBookingStatus.checked_in in
    let opened =
      throw_if (ltb (now + check_in_window_minutes * minute) b.start_at) invalid_transition in
    let (first, early, ended) =
      all_ok (is_there >> moves) opened (throw_if (leb b.end_at now) invalid_transition) h in
    let (party, allowed) = then_ok is_there moves first in
    (throw_unless-ok _ _ party, asserted _ _ allowed, throw_if-ok _ _ early, throw_if-ok _ _ ended)

pub check_in-Writes :
    (catalogue : Catalogue) (actor : BookingActor) (id : String) (now : ℕ) (tables : Tables)
    (result : Booking × Tables)
    → check_in catalogue actor id now tables ≡ ok result
    → Writes tables.bookings result.1.bookings
check_in-Writes catalogue actor id now tables result h =
    let (b, chalet, found, _, guards, stored) =
      check_in-parts catalogue actor id now tables result h in
    let (_, allowed, _, _) = check_in_guards-parts actor now chalet b guards in
    let (_, e) =
      store_status-parts BookingEventType.check_in actor b (checked_in_row b now) tables result
        stored in
    changed_to tables.bookings result.1.bookings b (checked_in_row b now) id
      (booking_of-found tables id b found) (checked_in_row-IsSameSlot b now allowed) e

overstay_recorded-bookings :
    (b : Booking) (actor : BookingActor) (charge : OverstayCharge) (tables : Tables)
    → (overstay_recorded b actor charge tables).bookings ≡ tables.bookings
overstay_recorded-bookings b actor charge tables = elim (Bool-cases (ltb 0 charge.billed_minutes)) [
  | inl e ↦ rw e refl
  | inr e ↦ rw e refl
]

pub check_out-Writes :
    (catalogue : Catalogue) (actor : BookingActor) (id : String) (now : ℕ) (tables : Tables)
    (result : Booking × Tables)
    → check_out catalogue actor id now tables ≡ ok result
    → Writes tables.bookings result.1.bookings
unfolding check_out store_check_out
check_out-Writes catalogue actor id now tables result h =
    let (b, chalet, found, _, guards, stored) =
      found_at_chalet (booking_of tables id) (λ b. chalet_of catalogue b.chalet_id)
        (check_out_guards actor)
        (λ chalet b. store_check_out actor b (overstay_of b now) now tables) result h in
    let (_, allowed) =
      then_ok (throw_if (not (is_guest_or_owner chalet b actor)) forbidden_error)
        (assert_transition b.status ChaletBookingStatus.checked_out) guards in
    let row = checked_out_row b (overstay_of b now) now in
    let (after, u, made) = bind_ok (update_booking unhandled row tables) _ stored in
    let (_, e) = update_booking-parts unhandled row tables after u in
    changed_to tables.bookings result.1.bookings b row id (booking_of-found tables id b found)
      (checked_out_row-IsSameSlot b (overstay_of b now) now (asserted _ _ allowed))
      (sym (ap (λ p. p.1.bookings) (ok-injective _ _ made))
        ∙ overstay_recorded-bookings b actor (overstay_of b now) after
        ∙ ap (λ t. t.bookings) e)

pub expire_lapsed-Writes :
    (chalet : String) (now : ℕ) (tables : Tables)
    → Writes tables.bookings (expire_lapsed_holds chalet now tables).bookings
unfolding expire_lapsed_holds
expire_lapsed-Writes chalet now tables =
    expired (λ b. b.chalet_id === chalet && is_lapsed_hold now b) unchanged

-- A row that is created after the lapsed holds are released.
created-Writes :
    (asked made : Booking) (chalet : String) (now : ℕ) (tables stored : Tables)
    → create_booking asked (counted (expire_lapsed_holds chalet now tables)) ≡ ok (made, stored)
    → Writes tables.bookings stored.bookings
created-Writes asked made chalet now tables stored h =
    let (s, free, e) = create_booking-parts asked made _ stored h in
    rw e (inserted asked made (expire_lapsed-Writes chalet now tables) s free)

pub create_external-Writes :
    (catalogue : Catalogue) (actor : BookingActor) (chalet_id : String) (input : ExternalInput)
    (id : String) (now : ℕ) (tables : Tables) (result : Booking × Tables)
    → create_external catalogue actor chalet_id input id now tables ≡ ok result
    → Writes tables.bookings result.1.bookings
unfolding create_external
create_external-Writes catalogue actor chalet_id input id now tables result h =
    let (chalet, _, rest) = bind_ok (chalet_of catalogue chalet_id) _ h in
    let swept = expire_lapsed_holds chalet.id now tables in
    let (_, written) =
      then_ok (owner_guards actor input chalet) (write_external chalet actor input id now swept)
        rest in
    let (made, c, e) =
      bind_ok
        (create_booking (external_booking id (swept.last_number + 1) chalet input now)
          (counted swept))
        _ written in
    rw (← ok-injective _ _ e) (
      created-Writes (external_booking id (swept.last_number + 1) chalet input now) made.0 chalet.id
        now tables made.1 c)

pub hold-Writes :
    (catalogue : Catalogue) (actor : BookingActor) (input : HoldInput) (id : String) (now : ℕ)
    (tables : Tables) (result : Booking × Tables)
    → hold catalogue actor input id now tables ≡ ok result
    → Writes tables.bookings result.1.bookings
unfolding hold hold_slot
hold-Writes catalogue actor input id now tables result h =
    let (chalet, _, rest) =
      bind_ok
        (throw_if (leb input.slot.start_at now) (bad_request ErrorCode.validation_failed)
          >> chalet_of catalogue input.chalet_id)
        _ h in
    let swept = expire_lapsed_holds chalet.id now tables in
    let (_, slot) =
      then_ok (check_chalet chalet input.guest_count)
        (hold_slot catalogue chalet actor input id now swept) rest in
    let (discount, _, priced) = bind_ok (hold_checks catalogue chalet input now swept) _ slot in
    let (total, _, written) =
      bind_ok (catalogue.quote_subtotal swept chalet input.slot discount now) _ priced in
    let asked = held_booking id (swept.last_number + 1) chalet input actor total now in
    let (made, c, e) = bind_ok (create_booking asked (counted swept)) _ written in
    rw (← ok-injective _ _ e) (created-Writes asked made.0 chalet.id now tables made.1 c)

store_extension-Writes :
    (actor : BookingActor) (asked : Booking) (tables : Tables) (result : Booking × Tables)
    → store_extension actor asked tables ≡ ok result
    → {rows : List Booking} → Writes rows tables.bookings
    → Writes rows result.1.bookings
unfolding store_extension
store_extension-Writes actor asked tables result h w =
    let (made, s, rest) = bind_ok (synced asked) _ h in
    let (stored, u, e) = bind_ok (update_booking slot_taken made tables) _ rest in
    let (free, same) = update_booking-parts slot_taken made tables stored u in
    rw (← ok-injective _ _ e) (rw same (moved asked made w s free))

pub extend-Writes :
    (catalogue : Catalogue) (actor : BookingActor) (id : String) (minutes now : ℕ) (tables : Tables)
    (result : Booking × Tables)
    → extend catalogue actor id minutes now tables ≡ ok result
    → Writes tables.bookings result.1.bookings
unfolding extend extend_to
extend-Writes catalogue actor id minutes now tables result h =
    let (b, chalet, _, _, _, rest) =
      found_at_chalet (booking_of tables id) (λ b. chalet_of catalogue b.chalet_id)
        (extend_guards actor minutes)
        (λ chalet b.
          extend_to catalogue chalet actor b (plus_minutes b.end_at minutes) now
            (expire_lapsed_holds b.chalet_id now tables))
        result h in
    let swept = expire_lapsed_holds b.chalet_id now tables in
    let new_end = plus_minutes b.end_at minutes in
    let (extra, _, stored) =
      bind_ok
        (throw_if
            (not
              (check_window chalet (record { start_at = b.start_at; end_at = new_end }) (some b.id)
                now swept).available)
            (conflict_error ErrorCode.conflict)
          >> catalogue.quote_subtotal swept chalet
              (record { start_at = b.end_at; end_at = new_end }) none now)
        (λ extra. store_extension actor (extended_row b new_end extra) swept) rest in
    store_extension-Writes actor (extended_row b new_end extra) swept result stored
      (expire_lapsed-Writes b.chalet_id now tables)
