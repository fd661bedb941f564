-- ===== src/Chalet/Service/Slots.antt =====
-- The changes of a booking's status keep the slot that it holds.
use tamam.Chalet.Bookings.{can_transition, OverstayCharge}
use tamam.Chalet.Service.{Booking, BookingActor}
use tamam.Chalet.Service.Kept.{IsSameSlot}
use tamam.Chalet.Service.Stay.{confirmed_row, cancelled_row}
use tamam.Chalet.Service.Table.{slot_holding_statuses}
use tamam.Chalet.Service.Visit.{checked_in_row, checked_out_row}
use tamam.Prelude.{ℕ, refl, ◌≡◌, true}
use tamam.Prelude.Lists.{includes}
use tamam.Shared.Enums.{ChaletBookingStatus, booking_status_eq}

-- The statuses that a held slot comes from.
into_confirmed :
    (s : ChaletBookingStatus)
    → can_transition s ChaletBookingStatus.confirmed ≡ true
    → includes slot_holding_statuses s ≡ true
unfolding can_transition
into_confirmed ChaletBookingStatus.held h = refl
into_confirmed ChaletBookingStatus.awaiting_payment h = refl
into_confirmed _ h = cc

into_checked_in :
    (s : ChaletBookingStatus)
    → can_transition s ChaletBookingStatus.checked_in ≡ true
    → includes slot_holding_statuses s ≡ true
unfolding can_transition
into_checked_in ChaletBookingStatus.confirmed h = refl
into_checked_in ChaletBookingStatus.check_in_ready h = refl
into_checked_in _ h = cc

into_checked_out :
    (s : ChaletBookingStatus)
    → can_transition s ChaletBookingStatus.checked_out ≡ true
    → includes slot_holding_statuses s ≡ true
unfolding can_transition
into_checked_out ChaletBookingStatus.checked_in h = refl
into_checked_out ChaletBookingStatus.in_progress h = refl
into_checked_out _ h = cc

-- The rows that the calls write keep the slot.
pub confirmed_row-IsSameSlot :
    (b : Booking) (now : ℕ)
    → can_transition b.status ChaletBookingStatus.confirmed ≡ true
    → IsSameSlot b (confirmed_row b now)
confirmed_row-IsSameSlot b now h = record {
  same_id = refl;
  same_chalet = refl;
  same_start = refl;
  same_block = refl;
  same_end = refl;
  same_cleaning = refl;
  held_before = λ _. into_confirmed b.status h;
}

pub checked_in_row-IsSameSlot :
    (b : Booking) (now : ℕ)
    → can_transition b.status ChaletBookingStatus.checked_in ≡ true
    → IsSameSlot b (checked_in_row b now)
checked_in_row-IsSameSlot b now h = record {
  same_id = refl;
  same_chalet = refl;
  same_start = refl;
  same_block = refl;
  same_end = refl;
  same_cleaning = refl;
  held_before = λ _. into_checked_in b.status h;
}

pub checked_out_row-IsSameSlot :
    (b : Booking) (charge : OverstayCharge) (now : ℕ)
    → can_transition b.status ChaletBookingStatus.checked_out ≡ true
    → IsSameSlot b (checked_out_row b charge now)
checked_out_row-IsSameSlot b charge now h = record {
  same_id = refl;
  same_chalet = refl;
  same_start = refl;
  same_block = refl;
  same_end = refl;
  same_cleaning = refl;
  held_before = λ _. into_checked_out b.status h;
}

pub cancelled_row-IsSameSlot :
    (b : Booking) (actor : BookingActor) (now : ℕ) → IsSameSlot b (cancelled_row b actor now)
cancelled_row-IsSameSlot b actor now = record {
  same_id = refl;
  same_chalet = refl;
  same_start = refl;
  same_block = refl;
  same_end = refl;
  same_cleaning = refl;
  held_before = λ h. cc;
}
