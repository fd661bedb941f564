-- ===== src/Chalet/Service.antt =====
-- apps/api/src/modules/chalet/chalet-booking.service.ts: the bookings of chalets, over the tables of
-- the database. What a call writes before it throws is lost, since `$transaction` rolls it back: a
-- call gives the tables that it commits or an exception. Amounts are natural numbers; texts, the
-- currency, the pricing snapshot and the data of events are not modelled. The number of a booking
-- is its counter. What a zone's day is, is a parameter.
pub mod Table
pub mod Create
pub mod Stay
pub mod Visit
pub mod Apart
pub mod Kept
pub mod Writes
pub mod Calls
mod Tests
pub mod Slots
pub mod Runs
use Prim.Native.String.{String}
use tamam.Chalet.Bookings.{CancellationPolicy}
use tamam.Chalet.Calendar.{Interval, BookingRules}
use tamam.Prelude.{ℕ, ◌≡◌, refl, Bool, List, [], ◌∷◌, Option}
use tamam.Prelude.Int.{ℤ}
use tamam.Shared.Enums.{ChaletBookingStatus, ChaletBookingSource}
use tamam.Shared.Errors.{Result}

-- A row of `chalet_bookings`.
pub record Booking : Type 0 where
  pub id : String
  pub booking_number : ℕ
  pub chalet_id : String
  pub customer_id : Option String
  pub start_at : ℕ
  pub end_at : ℕ
  pub blocked_until : ℕ
  pub booking_duration_minutes : ℤ
  pub cleaning_duration_minutes : ℕ
  pub guest_count : ℕ
  pub base_price_minor : ℕ
  pub total_amount_minor : ℕ
  pub deposit_amount_minor : ℕ
  pub applied_offer_id : Option String
  pub status : ChaletBookingStatus
  pub source : ChaletBookingSource
  pub hold_expires_at : Option ℕ
  pub confirmed_at : Option ℕ
  pub cancelled_at : Option ℕ
  pub cancelled_by : Option String
  pub checked_in_at : Option ℕ
  pub checked_out_at : Option ℕ
  pub overstay_minutes : ℕ
  pub overstay_fee_minor : ℕ
  pub version : ℕ

-- `ChaletBookingEventType`
pub data BookingEventType : Type 0 where
  created held hold_extended confirmed payment_received check_in : BookingEventType
  extension_offered extended overstay check_out cleaning_started : BookingEventType
  cleaning_completed completed cancelled expired refunded disputed : BookingEventType

pub record BookingEvent : Type 0 where
  pub booking_id : String
  pub event_type : BookingEventType
  pub actor_id : Option String
  pub from_status : Option ChaletBookingStatus
  pub to_status : Option ChaletBookingStatus

-- The tables that a call writes, and the counter of booking numbers.
pub record Tables : Type 0 where
  pub bookings : List Booking
  pub events : List BookingEvent
  pub last_number : ℕ

pub data DepositType : Type 0 where
  no_deposit fixed percentage : DepositType

-- The policy that is stored with a chalet; a field that is not a number is missing.
pub record StoredPolicy : Type 0 where
  pub stored_hours : Option ℕ
  pub stored_percent : Option ℕ

-- What the service reads of a chalet: its row, its blocks, and the bookable span of the local day
-- of an instant.
pub record Chalet : Type 0 where
  pub id : String
  pub owner_id : String
  pub is_active : Bool
  pub is_approved : Bool
  pub maximum_guests : ℕ
  pub minimum_guests : Option ℕ
  pub hold_duration_minutes : ℕ
  pub rules : BookingRules
  pub deposit_type : DepositType
  pub deposit_fixed_minor : Option ℕ
  pub deposit_percent : Option ℕ
  pub cancellation_policy : Option StoredPolicy
  pub blocks : List Interval
  pub span_of : ℕ → Interval

pub record ChaletOffer : Type 0 where
  pub id : String
  pub chalet_id : String
  pub is_active : Bool
  pub starts_at : ℕ
  pub expires_at : ℕ
  pub slot : Interval
  pub discount_percent : ℕ

-- What the service only reads, and the price that chalet-pricing.service.ts gives for a slot.
pub record Catalogue : Type 0 where
  pub chalets : List Chalet
  pub offers : List ChaletOffer
  pub quote_subtotal : Tables → Chalet → Interval → Option ℕ → ℕ → Result ℕ

-- The fields of `RequestUser` that the service reads.
pub record BookingActor : Type 0 where
  pub id : String
  pub is_super_admin : Bool
