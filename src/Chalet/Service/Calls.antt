-- ===== src/Chalet/Service/Calls.antt =====
-- What each call of chalet-booking.service.ts writes.
use Prim.Native.String.{String}
use tamam.Chalet.Bookings.{can_transition}
use tamam.Chalet.Service.{Booking, BookingEventType, Tables, Chalet, Catalogue, BookingActor}
use tamam.Chalet.Service.Create.{chalet_of}
use tamam.Chalet.Service.Kept.{IsSameSlot}
use tamam.Chalet.Service.Slots.{confirmed_row-IsSameSlot, cancelled_row-IsSameSlot}
use tamam.Chalet.Service.Stay.{
  confirm_guards, cancel_guards, cancellation_of, is_guest, booking_of, store_status, confirm,
  confirmed_row, cancel, cancelled_row, Cancellation, assert_transition,
}
use tamam.Chalet.Service.Table.{
  clashes, refuses, others, replace_row, synced, update_booking, create_booking, slot_taken,
  unhandled, is_lapsed_hold,
}
use tamam.Chalet.Service.Writes.{Writes, unchanged, changed}
use tamam.Prelude.{or_split, [], List, ℕ, refl, sym, ap, ◌∙◌, ◌≡◌, true, false, not, ◌∷◌, some}
use tamam.Prelude.Data.{◌===◌}
use tamam.Prelude.Lists.{find?, any}
use tamam.Shared.Enums.{ChaletBookingStatus, booking_status_eq}
use tamam.Shared.Errors.{
  all_ok, ErrorCode, forbidden_error, conflict_error, Result, ok, AppException, ◌>>=◌, ◌>>◌,
  bind_ok, then_ok, throw_if, throw_if-ok, ok-injective, or_throw-ok, throw_unless-ok,
}
use tamam.Shared.Text.{string_eq}

-- A write that returned met no other booking.
pub update_booking-parts :
    (rejection : AppException) (row : Booking) (tables stored : Tables)
    → update_booking rejection row tables ≡ ok stored
    → (any (clashes row) (others row.id tables.bookings) ≡ false)
      × (stored ≡ record tables { bookings = replace_row row tables.bookings })
unfolding update_booking
update_booking-parts rejection row tables stored h =
    let (free, made) =
      then_ok (throw_if (any (clashes row) (others row.id tables.bookings)) _) _ h in
    (throw_if-ok _ _ free, sym (ok-injective _ _ made))

-- One that meets no other returns.
pub update_booking-returns :
    (rejection : AppException) (row : Booking) (tables : Tables)
    → any (clashes row) (others row.id tables.bookings) ≡ false
    → update_booking rejection row tables
      ≡ ok (record tables { bookings = replace_row row tables.bookings })
unfolding update_booking
update_booking-returns rejection row tables h = rw h refl

refuses_none :
    (b : Booking) (rows : List Booking)
    → any (λ r. b.id === r.id) rows ≡ false
    → any (clashes b) rows ≡ false
    → any (refuses b) rows ≡ false
refuses_none b [] h k = refl
refuses_none b (r ∷ rows) h k =
    let (here, later) = or_split (b.id === r.id) (any (λ x. b.id === x.id) rows) h in
    let (clear, rest) = or_split (clashes b r) (any (clashes b) rows) k in
    rw (here, clear) (refuses_none b rows later rest)

pub create_booking-parts :
    (row made : Booking) (tables stored : Tables)
    → create_booking row tables ≡ ok (made, stored)
    → (synced row ≡ ok made)
      × (any (refuses made) tables.bookings ≡ false)
      × (stored ≡ record tables { bookings = made ∷ tables.bookings })
unfolding create_booking
create_booking-parts row made tables stored h =
    let (m, s, rest) = bind_ok (synced row) _ h in
    let new_id = throw_if (any (λ b. m.id === b.id) tables.bookings) unhandled in
    let no_clash = throw_if (any (clashes m) tables.bookings) slot_taken in
    let (new, free, pair) = all_ok new_id no_clash _ rest in
    let apart = refuses_none m tables.bookings (throw_if-ok _ _ new) (throw_if-ok _ _ free) in
    let both = ok-injective _ _ pair in
    let same : m ≡ made = ap (λ p. p.0) both in
    (
      s ∙ ap ok same,
      rw same at apart,
      sym (ap (λ p. p.1) both) ∙ ap (λ x. record tables { bookings = x ∷ tables.bookings }) same,
    )

pub store_status-parts :
    (type : BookingEventType) (actor : BookingActor) (b row : Booking) (tables : Tables)
    (result : Booking × Tables)
    → store_status type actor b row tables ≡ ok result
    → (result.0 ≡ row) × (result.1.bookings ≡ replace_row row tables.bookings)
unfolding store_status
store_status-parts type actor b row tables result h =
    let (stored, u, made) = bind_ok (update_booking unhandled row tables) _ h in
    let (_, s) = update_booking-parts unhandled row tables stored u in
    let both = ok-injective _ _ made in
    (sym (ap (λ p. p.0) both), sym (ap (λ p. p.1.bookings) both) ∙ ap (λ t. t.bookings) s)

-- A call that finds a booking.
pub booking_of-found :
    (tables : Tables) (id : String) (b : Booking)
    → booking_of tables id ≡ ok b
    → find? (λ x. x.id === id) tables.bookings ≡ some b
booking_of-found tables id b h = or_throw-ok _ _ b h

-- What the guards of a change let through.
pub asserted :
    (from to : ChaletBookingStatus)
    → assert_transition from to ≡ ok tt
    → can_transition from to ≡ true
asserted from to h = throw_unless-ok _ _ h

-- The write of a found row, as a list of bookings that equals it.
pub changed_to :
    (rows after : List Booking) (b row : Booking) (id : String)
    → find? (λ x. x.id === id) rows ≡ some b
    → IsSameSlot b row
    → after ≡ replace_row row rows
    → Writes rows after
changed_to rows after b row id f same e = rw e (changed b row id unchanged f same)

-- A call on a booking that returned passed its guards and its write.
module _ {ℓ} {R : Type ℓ} where
  pub found_then :
      (call : Result Booking) (guards : Booking → Result (Unit {0})) (store : Booking → Result R)
      (result : R)
      → (call >>= λ b. guards b >> store b) ≡ ok result
      → (b : Booking) × (call ≡ ok b) × (guards b ≡ ok tt) × (store b ≡ ok result)
  found_then call guards store result h =
      let (b, found, rest) = bind_ok call _ h in
      let (passed, stored) = then_ok (guards b) (store b) rest in (b, found, passed, stored)

  pub found_at_chalet :
      (call : Result Booking) (owner : Booking → Result Chalet)
      (guards : Chalet → Booking → Result (Unit {0})) (store : Chalet → Booking → Result R)
      (result : R)
      → (call >>= λ b. owner b >>= λ chalet. guards chalet b >> store chalet b) ≡ ok result
      → (b : Booking) × (chalet : Chalet) × (call ≡ ok b)
        × (owner b ≡ ok chalet)
        × (guards chalet b ≡ ok tt)
        × (store chalet b ≡ ok result)
  found_at_chalet call owner guards store result h =
      let (b, found, rest) = bind_ok call _ h in
      let (chalet, here, more) = bind_ok (owner b) _ rest in
      let (passed, stored) = then_ok (guards chalet b) (store chalet b) more in
      (b, chalet, found, here, passed, stored)

pub confirm-parts :
    (actor : BookingActor) (id : String) (now : ℕ) (tables : Tables) (result : Booking × Tables)
    → confirm actor id now tables ≡ ok result
    → (b : Booking) × (booking_of tables id ≡ ok b)
      × (confirm_guards actor now b ≡ ok tt)
      × (store_status BookingEventType.confirmed actor b (confirmed_row b now) tables ≡ ok result)
unfolding confirm
confirm-parts actor id now tables result h =
    found_then (booking_of tables id) (confirm_guards actor now)
      (λ b. store_status BookingEventType.confirmed actor b (confirmed_row b now) tables) result h

pub confirm-Writes :
    (actor : BookingActor) (id : String) (now : ℕ) (tables : Tables) (result : Booking × Tables)
    → confirm actor id now tables ≡ ok result
    → Writes tables.bookings result.1.bookings
confirm-Writes actor id now tables result h =
    let (b, found, guards, stored) = confirm-parts actor id now tables result h in
    let (_, allowed) =
      then_ok
        (throw_if (not (is_guest b actor)) forbidden_error
          >> throw_if (is_lapsed_hold now b) (conflict_error ErrorCode.offer_expired))
        (assert_transition b.status ChaletBookingStatus.confirmed) guards in
    let (_, e) =
      store_status-parts BookingEventType.confirmed actor b (confirmed_row b now) tables result
        stored in
    changed_to tables.bookings result.1.bookings b (confirmed_row b now) id
      (booking_of-found tables id b found) (confirmed_row-IsSameSlot b now (asserted _ _ allowed)) e

pub cancel-parts :
    (catalogue : Catalogue) (actor : BookingActor) (id : String) (now : ℕ) (tables : Tables)
    (result : Cancellation × Tables)
    → cancel catalogue actor id now tables ≡ ok result
    → (b : Booking) × (chalet : Chalet) × (booking_of tables id ≡ ok b)
      × (chalet_of catalogue b.chalet_id ≡ ok chalet)
      × (cancel_guards actor chalet b ≡ ok tt)
      × (result.0 ≡ cancellation_of actor now chalet b)
      × (result.1.bookings ≡ replace_row (cancelled_row b actor now) tables.bookings)
unfolding cancel
cancel-parts catalogue actor id now tables result h =
    let (b, chalet, found, here, guards, last) =
      found_at_chalet (booking_of tables id) (λ b. chalet_of catalogue b.chalet_id)
        (cancel_guards actor)
        (λ chalet b.
          store_status BookingEventType.cancelled actor b (cancelled_row b actor now) tables
          >>= λ stored. ok (cancellation_of actor now chalet b, stored.1))
        result h in
    let (stored, s, made) =
      bind_ok (store_status BookingEventType.cancelled actor b (cancelled_row b actor now) tables)
        (λ stored. ok (cancellation_of actor now chalet b, stored.1)) last in
    let (_, e) =
      store_status-parts BookingEventType.cancelled actor b (cancelled_row b actor now) tables
        stored s in
    let both = ok-injective (cancellation_of actor now chalet b, stored.1) result made in
    (
      b,
      chalet,
      found,
      here,
      guards,
      sym (ap (λ p. p.0) both),
      sym (ap (λ p. p.1.bookings) both) ∙ e,
    )

pub cancel-Writes :
    (catalogue : Catalogue) (actor : BookingActor) (id : String) (now : ℕ) (tables : Tables)
    (result : Cancellation × Tables)
    → cancel catalogue actor id now tables ≡ ok result
    → Writes tables.bookings result.1.bookings
cancel-Writes catalogue actor id now tables result h =
    let (b, _, found, _, _, _, e) = cancel-parts catalogue actor id now tables result h in
    changed_to tables.bookings result.1.bookings b (cancelled_row b actor now) id
      (booking_of-found tables id b found) (cancelled_row-IsSameSlot b actor now) e
