-- ===== src/Chalet/Bookings.antt =====
-- apps/api/src/modules/chalet/domain/booking-state.ts: what a chalet booking may do next, what a
-- cancellation refunds and what an overstay costs.
use tamam.Money.{Decimal, round_times}
use tamam.Prelude.{ℕ, List, [], ◌∷◌, Bool, true, leb, ◌+◌, ◌-◌, ◌*◌, ◌/◌, if◌then◌else◌, ◌≡◌, refl}
use tamam.Prelude.Int.{ℤ, pos, leb_ℤ}
use tamam.Prelude.Lists.{includes, all, all-includes}
use tamam.Shared.Enums.{
  ChaletBookingStatus, booking_status_eq, draft, held, awaiting_payment, confirmed, expired,
  cancelled, check_in_ready, checked_in, in_progress, checked_out, cleaning, completed, no_show,
  disputed,
}

-- `CHALET_TRANSITIONS`
unfoldable pub chalet_transitions : ChaletBookingStatus → List ChaletBookingStatus
chalet_transitions draft = held ∷ cancelled ∷ []
chalet_transitions held = awaiting_payment ∷ confirmed ∷ expired ∷ cancelled ∷ []
chalet_transitions awaiting_payment = confirmed ∷ expired ∷ cancelled ∷ []
chalet_transitions confirmed = check_in_ready ∷ checked_in ∷ cancelled ∷ no_show ∷ []
chalet_transitions check_in_ready = checked_in ∷ no_show ∷ cancelled ∷ []
chalet_transitions checked_in = in_progress ∷ checked_out ∷ []
chalet_transitions in_progress = checked_out ∷ []
chalet_transitions checked_out = cleaning ∷ completed ∷ []
chalet_transitions cleaning = completed ∷ []
chalet_transitions completed = disputed ∷ []
chalet_transitions cancelled = []
chalet_transitions expired = []
chalet_transitions no_show = disputed ∷ []
chalet_transitions disputed = completed ∷ []

-- `canTransition`
unfoldable pub can_transition : ChaletBookingStatus → ChaletBookingStatus → Bool
unfolding chalet_transitions
can_transition from to = includes (chalet_transitions from) to

-- `CANCELLABLE_BY_CUSTOMER`
abbrev pub cancellable_by_customer : List ChaletBookingStatus
cancellable_by_customer = draft ∷ held ∷ awaiting_payment ∷ confirmed ∷ check_in_ready ∷ []

-- `EXTENDABLE`
abbrev pub extendable : List ChaletBookingStatus
extendable = confirmed ∷ check_in_ready ∷ checked_in ∷ in_progress ∷ []

-- A booking goes from a status to another by changes that `canTransition` accepts.
pub data Leads (s : ChaletBookingStatus) : ChaletBookingStatus → Type 0 where
  here : Leads s s
  next : {t u : ChaletBookingStatus} → Leads s t → can_transition t u ≡ true → Leads s u

-- The customer may cancel exactly the bookings that the table lets become CANCELLED.
pub cancellable-can_transition :
    (s : ChaletBookingStatus) → includes cancellable_by_customer s ≡ can_transition s cancelled
unfolding can_transition
cancellable-can_transition draft = refl
cancellable-can_transition _ = refl

-- The statuses from the guest's arrival on.
abbrev pub arrived_statuses : List ChaletBookingStatus
arrived_statuses = checked_in ∷ in_progress ∷ checked_out ∷ cleaning ∷ completed ∷ disputed ∷ []

arrived-closed :
    (t : ChaletBookingStatus)
    → includes arrived_statuses t ≡ true
    → all (includes arrived_statuses) (chalet_transitions t) ≡ true
unfolding chalet_transitions
arrived-closed checked_in h = refl
arrived-closed in_progress h = refl
arrived-closed checked_out h = refl
arrived-closed cleaning h = refl
arrived-closed completed h = refl
arrived-closed disputed h = refl
arrived-closed _ h = cc

arrived-next :
    (t u : ChaletBookingStatus)
    → includes arrived_statuses t ≡ true
    → can_transition t u ≡ true
    → includes arrived_statuses u ≡ true
unfolding can_transition
arrived-next t u h k =
    all-includes (includes arrived_statuses) (chalet_transitions t) u (arrived-closed t h) k

-- Once the guest has checked in, the booking is never cancelled, never expires and is never a
-- no-show: it stays among the statuses from the arrival on.
pub Leads-arrived :
    {s t : ChaletBookingStatus}
    → includes arrived_statuses s ≡ true
    → Leads s t
    → includes arrived_statuses t ≡ true
Leads-arrived h here = h
Leads-arrived h (next r e) = arrived-next _ _ (Leads-arrived h r) e

-- `CancellationPolicy`
pub record CancellationPolicy : Type 0 where
  pub free_cancellation_hours : ℕ
  pub refund_percent_after_window : ℕ

-- `refundPercentFor`
unfoldable pub refund_percent_for : CancellationPolicy → ℤ → ℕ
refund_percent_for policy minutes_until_start =
    if leb_ℤ (pos (policy.free_cancellation_hours * 60)) minutes_until_start
    then 100
    else if leb_ℤ minutes_until_start (pos 0)
    then 0
    else policy.refund_percent_after_window

-- `OverstayPolicy`
pub record OverstayPolicy : Type 0 where
  pub grace_minutes : ℕ
  pub surcharge_multiplier : Decimal
  pub billing_block_minutes : ℕ

pub record OverstayCharge : Type 0 where
  pub billed_minutes : ℕ
  pub fee_minor : ℕ

-- `overstayCharge`, at a positive block and an hourly rate that is not negative.
unfoldable pub overstay_charge : ℕ → ℕ → OverstayPolicy → OverstayCharge
overstay_charge minutes_late hourly_rate_minor policy =
    if leb minutes_late policy.grace_minutes
    then record { billed_minutes = 0; fee_minor = 0 }
    else let blocks =
        (minutes_late + policy.billing_block_minutes - 1) / policy.billing_block_minutes in
      let billed = blocks * policy.billing_block_minutes in
      let per_minute = hourly_rate_minor * round_times 100 policy.surcharge_multiplier / 100 in
      record { billed_minutes = billed; fee_minor = (per_minute * billed + 30) / 60 }
