-- ===== src/Chalet/Service/Runs.antt =====
-- The calls of chalet-booking.service.ts one after another, each at its own instant.
pub mod Visits
pub mod Safe
pub mod Returns
pub mod Released
pub mod Refunds
pub mod Sweeps
use Prim.Native.String.{String}
use tamam.Chalet.Service.{Booking, Tables, Catalogue, BookingActor}
use tamam.Chalet.Service.Create.{HoldInput, ExternalInput, hold, create_external}
use tamam.Chalet.Service.Stay.{confirm, cancel, Cancellation}
use tamam.Chalet.Service.Visit.{check_in, check_out, extend, release_holds}
use tamam.Prelude.{ℕ, ◌≡◌, List}
use tamam.Shared.Errors.{ok}

-- A call that returned. The sweep releases the ids that it has read at some time before.
pub data Step (catalogue : Catalogue) (tables : Tables) : Tables → Type 0 where
  held :
      (actor : BookingActor) (input : HoldInput) (id : String) (now : ℕ) (result : Booking × Tables)
      → hold catalogue actor input id now tables ≡ ok result
      → Step catalogue tables result.1
  recorded :
      (actor : BookingActor) (chalet_id : String) (input : ExternalInput) (id : String) (now : ℕ)
      (result : Booking × Tables)
      → create_external catalogue actor chalet_id input id now tables ≡ ok result
      → Step catalogue tables result.1
  confirmed :
      (actor : BookingActor) (id : String) (now : ℕ) (result : Booking × Tables)
      → confirm actor id now tables ≡ ok result
      → Step catalogue tables result.1
  cancelled :
      (actor : BookingActor) (id : String) (now : ℕ) (result : Cancellation × Tables)
      → cancel catalogue actor id now tables ≡ ok result
      → Step catalogue tables result.1
  checked_in :
      (actor : BookingActor) (id : String) (now : ℕ) (result : Booking × Tables)
      → check_in catalogue actor id now tables ≡ ok result
      → Step catalogue tables result.1
  checked_out :
      (actor : BookingActor) (id : String) (now : ℕ) (result : Booking × Tables)
      → check_out catalogue actor id now tables ≡ ok result
      → Step catalogue tables result.1
  extended :
      (actor : BookingActor) (id : String) (minutes now : ℕ) (result : Booking × Tables)
      → extend catalogue actor id minutes now tables ≡ ok result
      → Step catalogue tables result.1
  swept : (ids : List String) → Step catalogue tables (release_holds ids tables)

-- The tables that calls lead to.
pub data Runs (catalogue : Catalogue) (first : Tables) : Tables → Type 0 where
  start : Runs catalogue first first
  step :
      {before after : Tables}
      → Runs catalogue first before
      → Step catalogue before after
      → Runs catalogue first after
