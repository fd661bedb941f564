-- ===== src/Chalet/Service/Create.antt =====
-- `hold` and `createExternal` of apps/api/src/modules/chalet/chalet-booking.service.ts, and
-- `depositFor` of chalet-pricing.service.ts.
use Prim.Native.String.{String}
use tamam.Chalet.Calendar.{Interval, plus_minutes, minutes_between}
use tamam.Chalet.Service.{
  Booking, BookingEvent, BookingEventType, Tables, Chalet, ChaletOffer, Catalogue, BookingActor,
  no_deposit, fixed, percentage,
}
use tamam.Chalet.Service.Table.{expire_lapsed_holds, check_window, create_booking, record_event}
use tamam.Money.{one, percent_of}
use tamam.Prelude.{ℕ, ◌+◌, ◌*◌, ltb, leb, Bool, false, ◌&&◌, ◌||◌, not, Option, none, some}
use tamam.Prelude.Data.{◌===◌}
use tamam.Prelude.Int.{pos, pos_part}
use tamam.Prelude.Lists.{find?}
use tamam.Shared.Enums.{ChaletBookingStatus, ChaletBookingSource}
use tamam.Shared.Errors.{
  Result, ok, ErrorCode, throw_if, or_throw, ◌>>◌, ◌>>=◌, bad_request, conflict_error,
  not_found_error, forbidden_error,
}
use tamam.Shared.Text.{string_eq}

pub record HoldInput : Type 0 where
  pub chalet_id : String
  pub slot : Interval
  pub guest_count : ℕ
  pub offer_id : Option String

pub record ExternalInput : Type 0 where
  pub slot : Interval
  pub guest_count : ℕ
  pub total_amount_minor : Option ℕ
  pub source : ChaletBookingSource

abbrev pub chalet_of : Catalogue → String → Result Chalet
chalet_of catalogue id = or_throw (find? (λ c. c.id === id) catalogue.chalets) not_found_error

-- `chalet.minimumGuests !== null && input.guestCount < chalet.minimumGuests`
abbrev pub too_few : Option ℕ → ℕ → Bool
too_few none guests = false
too_few (some least) guests = ltb guests least

-- The guards on an offer that was found.
abbrev pub check_offer : ChaletOffer → String → Interval → ℕ → Result (Option ℕ)
check_offer offer chalet slot now =
    throw_if (not (offer.chalet_id === chalet)) not_found_error
    >> throw_if (not offer.is_active || (leb offer.expires_at now || ltb now offer.starts_at))
        (conflict_error ErrorCode.offer_expired)
    >> throw_if (ltb slot.start_at offer.slot.start_at || ltb offer.slot.end_at slot.end_at)
        (bad_request ErrorCode.promo_not_eligible)
    >> ok (some offer.discount_percent)

-- `offerDiscountFor`
unfoldable pub offer_discount_for :
    Catalogue → Option String → String → Interval → ℕ → Result (Option ℕ)
offer_discount_for catalogue none chalet slot now = ok none
offer_discount_for catalogue (some id) chalet slot now =
    or_throw (find? (λ (o : ChaletOffer). o.id === id) catalogue.offers) not_found_error
    >>= λ offer. check_offer offer chalet slot now

-- `amount ?? 0`
abbrev amount_or_zero : Option ℕ → ℕ
amount_or_zero none = 0
amount_or_zero (some amount) = amount

-- `depositFor`: the amount that is missing is 0, as the percentage is.
unfoldable pub deposit_for : Chalet → ℕ → ℕ
deposit_for chalet total = elim chalet.deposit_type [
  | no_deposit ↦ 0
  | fixed ↦ amount_or_zero chalet.deposit_fixed_minor
  | percentage ↦ elim chalet.deposit_percent [
    | none ↦ 0
    | some percent ↦ pos_part (percent_of (pos total) (percent * one))
  ]
]

-- The data of `create` that both calls write alike.
abbrev blank_booking : String → ℕ → Chalet → Interval → ℕ → ℕ → Booking
blank_booking id number chalet slot guests total = record {
  id = id;
  booking_number = number;
  chalet_id = chalet.id;
  customer_id = none;
  start_at = slot.start_at;
  end_at = slot.end_at;
  blocked_until = slot.end_at;
  booking_duration_minutes = minutes_between slot.start_at slot.end_at;
  cleaning_duration_minutes = chalet.rules.cleaning_duration_minutes;
  guest_count = guests;
  base_price_minor = total;
  total_amount_minor = total;
  deposit_amount_minor = 0;
  applied_offer_id = none;
  status = ChaletBookingStatus.draft;
  source = ChaletBookingSource.tamam_app;
  hold_expires_at = none;
  confirmed_at = none;
  cancelled_at = none;
  cancelled_by = none;
  checked_in_at = none;
  checked_out_at = none;
  overstay_minutes = 0;
  overstay_fee_minor = 0;
  version = 0;
}

abbrev pub held_booking : String → ℕ → Chalet → HoldInput → BookingActor → ℕ → ℕ → Booking
held_booking id number chalet input actor total now =
    record (blank_booking id number chalet input.slot input.guest_count total) {
      customer_id = some actor.id;
      deposit_amount_minor = deposit_for chalet total;
      applied_offer_id = input.offer_id;
      status = ChaletBookingStatus.held;
      hold_expires_at = some (plus_minutes now chalet.hold_duration_minutes);
    }

-- `nextCounter`
abbrev pub counted : Tables → Tables
counted tables = record tables { last_number = tables.last_number + 1 }

abbrev opening_event : String → BookingEventType → BookingActor → ChaletBookingStatus → BookingEvent
opening_event id type actor status = record {
  booking_id = id;
  event_type = type;
  actor_id = some actor.id;
  from_status = none;
  to_status = some status;
}

-- The guards of `hold` on the chalet.
abbrev pub check_chalet : Chalet → ℕ → Result (Unit {0})
check_chalet chalet guests =
    throw_if (not chalet.is_active || not chalet.is_approved)
      (bad_request ErrorCode.feature_disabled)
    >> throw_if (ltb chalet.maximum_guests guests) (bad_request ErrorCode.validation_failed)
    >> throw_if (too_few chalet.minimum_guests guests) (bad_request ErrorCode.validation_failed)

-- The checks of `hold` that only read, with the discount of the offer.
unfoldable pub hold_checks : Catalogue → Chalet → HoldInput → ℕ → Tables → Result (Option ℕ)
unfolding check_window offer_discount_for
hold_checks catalogue chalet input now tables =
    throw_if (not (check_window chalet input.slot none now tables).available)
      (conflict_error ErrorCode.conflict)
    >> offer_discount_for catalogue input.offer_id chalet.id input.slot now

-- The write of `hold` and its event.
abbrev pub write_hold :
    Chalet → BookingActor → HoldInput → String → ℕ → ℕ → Tables → Result (Booking × Tables)
write_hold chalet actor input id now total tables =
    create_booking (held_booking id (tables.last_number + 1) chalet input actor total now)
      (counted tables)
    >>= λ made. ok (
      made.0,
      record_event (opening_event id BookingEventType.held actor ChaletBookingStatus.held) made.1,
    )

-- `hold` once the lapsed holds are released.
unfoldable pub hold_slot :
    Catalogue → Chalet → BookingActor → HoldInput → String → ℕ → Tables → Result (Booking × Tables)
unfolding hold_checks deposit_for create_booking
hold_slot catalogue chalet actor input id now tables =
    hold_checks catalogue chalet input now tables >>= λ discount.
    catalogue.quote_subtotal tables chalet input.slot discount now >>= λ total.
    write_hold chalet actor input id now total tables

-- `hold`, with the id that the database gives the row.
unfoldable pub hold :
    Catalogue → BookingActor → HoldInput → String → ℕ → Tables → Result (Booking × Tables)
unfolding hold_slot expire_lapsed_holds
hold catalogue actor input id now tables =
    throw_if (leb input.slot.start_at now) (bad_request ErrorCode.validation_failed)
    >> chalet_of catalogue input.chalet_id
    >>= λ chalet.
        check_chalet chalet input.guest_count
        >> hold_slot catalogue chalet actor input id now (expire_lapsed_holds chalet.id now tables)

abbrev pub external_booking : String → ℕ → Chalet → ExternalInput → ℕ → Booking
external_booking id number chalet input now =
    record (blank_booking id number chalet input.slot input.guest_count
      (amount_or_zero input.total_amount_minor)) {
        status = ChaletBookingStatus.confirmed;
        source = input.source;
        confirmed_at = some now;
      }

-- `createExternal` once the lapsed holds are released.
abbrev pub write_external :
    Chalet → BookingActor → ExternalInput → String → ℕ → Tables → Result (Booking × Tables)
write_external chalet actor input id now tables =
    create_booking (external_booking id (tables.last_number + 1) chalet input now) (counted tables)
    >>= λ made. ok (
      made.0,
      record_event (opening_event id BookingEventType.created actor ChaletBookingStatus.confirmed)
          made.1,
    )

-- The guards of `createExternal`.
abbrev pub owner_guards : BookingActor → ExternalInput → Chalet → Result (Unit {0})
owner_guards actor input chalet =
    throw_if (not (chalet.owner_id === actor.id) && not actor.is_super_admin) forbidden_error
    >> throw_if (ltb chalet.maximum_guests input.guest_count)
        (bad_request ErrorCode.validation_failed)

-- `createExternal`
unfoldable pub create_external :
    Catalogue
    → BookingActor
    → String
    → ExternalInput
    → String
    → ℕ
    → Tables
    → Result (Booking × Tables)
unfolding create_booking expire_lapsed_holds
create_external catalogue actor chalet_id input id now tables =
    chalet_of catalogue chalet_id >>= λ chalet.
    owner_guards actor input chalet
    >> write_external chalet actor input id now (expire_lapsed_holds chalet.id now tables)
