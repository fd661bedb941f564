-- ===== src/Chalet/Service/Tests.antt =====
-- The theorems on bookings at a chalet with two of them.
use mathlib.Core.List.{Memᴰ}
use tamam.Chalet.Calendar.{BookingRules, minute}
use tamam.Chalet.Service.{
  Booking, BookingEventType, Tables, Chalet, Catalogue, BookingActor, no_deposit,
}
use tamam.Chalet.Service.Create.{HoldInput, held_booking}
use tamam.Chalet.Service.Runs.{Runs, start, step, confirmed}
use tamam.Chalet.Service.Runs.Refunds.{cancel-Refunds, Refunds}
use tamam.Chalet.Service.Runs.Released.{cancel-Releases}
use tamam.Chalet.Service.Runs.Returns.{Runs-AllReturn, AllReturn, settled}
use tamam.Chalet.Service.Runs.Safe.{Runs-Disjoint, Disjoint}
use tamam.Chalet.Service.Stay.{
  confirm, confirmed_row, cancel, cancelled_row, cancellation_of, Cancellation,
}
use tamam.Chalet.Service.Table.{clashes, replace_row, expired_row}
use tamam.Chalet.Service.Writes.{IsSound}
use tamam.Prelude.{◌*◌, ◌≡◌, refl, true, false, [], ◌∷◌, some, none, arith}
use tamam.Prelude.Int.{pos}
use tamam.Prelude.Lists.{any}
use tamam.Shared.Enums.{ChaletBookingStatus, ChaletBookingSource}
use tamam.Shared.Errors.{ok}
use tamam.Shared.Text.{string_eq}

abbrev guest : BookingActor
guest = record { id = "guest"; is_super_admin = false }

abbrev rules : BookingRules
rules = record {
  booking_interval_minutes = 30;
  minimum_booking_duration_minutes = 60;
  maximum_booking_duration_minutes = 600;
  cleaning_duration_minutes = 30;
}

abbrev villa : Chalet
villa = record {
  id = "villa";
  owner_id = "owner";
  is_active = true;
  is_approved = true;
  maximum_guests = 8;
  minimum_guests = none;
  hold_duration_minutes = 7;
  rules = rules;
  deposit_type = no_deposit;
  deposit_fixed_minor = none;
  deposit_percent = none;
  cancellation_policy = none;
  blocks = [];
  span_of = λ at. record { start_at = 600 * minute; end_at = 1200 * minute };
}

abbrev site : Catalogue
site = record {
  chalets = villa ∷ [];
  offers = [];
  quote_subtotal = λ tables chalet slot discount now. ok 9000;
}

abbrev afternoon : Booking
afternoon = record {
  id = "b1";
  booking_number = 1;
  chalet_id = "villa";
  customer_id = some "guest";
  start_at = 720 * minute;
  end_at = 780 * minute;
  blocked_until = 810 * minute;
  booking_duration_minutes = pos 60;
  cleaning_duration_minutes = 30;
  guest_count = 4;
  base_price_minor = 8000;
  total_amount_minor = 8000;
  deposit_amount_minor = 0;
  applied_offer_id = none;
  status = ChaletBookingStatus.held;
  source = ChaletBookingSource.tamam_app;
  hold_expires_at = some (107 * minute);
  confirmed_at = none;
  cancelled_at = none;
  cancelled_by = none;
  checked_in_at = none;
  checked_out_at = none;
  overstay_minutes = 0;
  overstay_fee_minor = 0;
  version = 0;
}

abbrev evening : Booking
evening = record afternoon {
  id = "b2";
  booking_number = 2;
  customer_id = none;
  start_at = 840 * minute;
  end_at = 900 * minute;
  blocked_until = 930 * minute;
  status = ChaletBookingStatus.confirmed;
  hold_expires_at = none;
}

abbrev two : Tables
two = record { bookings = afternoon ∷ evening ∷ []; events = []; last_number = 2 }

two-IsSound : IsSound two.bookings
unfolding clashes
two-IsSound = (
  (refl, (refl, tt)),
  (
    record { proper = omega arith; cleaned = refl },
    (record { proper = omega arith; cleaned = refl }, tt),
  ),
)

abbrev now_confirmed : Booking
now_confirmed = confirmed_row afternoon (105 * minute)

abbrev after_confirm : Booking × Tables
after_confirm = settled BookingEventType.confirmed guest afternoon now_confirmed two

confirm_run : Runs site two after_confirm.1
unfolding confirm
confirm_run = step start (confirmed guest "b1" (105 * minute) after_confirm refl)

Runs-Disjoint_example : Disjoint now_confirmed evening
unfolding replace_row
Runs-Disjoint_example =
    Runs-Disjoint site two after_confirm.1 now_confirmed evening two-IsSound confirm_run
      (Memᴰ.head refl) (Memᴰ.tail (Memᴰ.head refl)) refl refl refl refl

Runs-AllReturn_example :
    AllReturn site guest "b1" (200 * minute) after_confirm.1 now_confirmed villa
unfolding replace_row
Runs-AllReturn_example =
    Runs-AllReturn site two after_confirm.1 guest "b1" (200 * minute) now_confirmed villa
      two-IsSound confirm_run refl refl

abbrev late_cancellation : Cancellation × Tables
late_cancellation = (
  cancellation_of guest (200 * minute) villa now_confirmed,
  (settled BookingEventType.cancelled guest now_confirmed
      (cancelled_row now_confirmed guest (200 * minute)) after_confirm.1).1,
)

cancels : cancel site guest "b1" (200 * minute) after_confirm.1 ≡ ok late_cancellation
unfolding cancel
cancels = refl

abbrev within_afternoon : Booking
within_afternoon = record evening {
  id = "b3";
  start_at = 720 * minute;
  end_at = 750 * minute;
  blocked_until = 780 * minute;
}

cancel-Releases_example : any (clashes within_afternoon) late_cancellation.1.bookings ≡ false
unfolding replace_row
cancel-Releases_example =
    cancel-Releases site two after_confirm.1 guest "b1" (200 * minute) now_confirmed
      within_afternoon late_cancellation two-IsSound confirm_run refl refl cancels
      (record { at_chalet = refl; starts_after = omega arith; ends_before = omega arith })

cancel-Refunds_example : Refunds villa now_confirmed guest late_cancellation.0
unfolding replace_row
cancel-Refunds_example =
    cancel-Refunds site after_confirm.1 guest "b1" (200 * minute) now_confirmed villa
      late_cancellation refl refl (omega arith) cancels

abbrev late_input : HoldInput
late_input = record {
  chalet_id = "villa";
  slot = record { start_at = 690 * minute; end_at = 780 * minute };
  guest_count = 2;
  offer_id = none;
}

-- The hold of "b1" has run out by then, and its slot is taken anew.
abbrev late_taken : Booking × Tables
late_taken =
    let row = record (held_booking "b3" 3 villa late_input guest 9000 (110 * minute)) {
      blocked_until = 810 * minute;
    } in
    (
      row,
      record {
        bookings = row ∷ expired_row afternoon ∷ evening ∷ [];
        events =
            record {
              booking_id = "b3";
              event_type = BookingEventType.held;
              actor_id = some "guest";
              from_status = none;
              to_status = some ChaletBookingStatus.held;
            }
            ∷ [];
        last_number = 3;
      },
    )
