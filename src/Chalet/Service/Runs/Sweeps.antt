-- ===== src/Chalet/Service/Runs/Sweeps.antt =====
-- Which holds the release of lapsed holds ends.
use Prim.Native.String.{String}
use tamam.Chalet.Service.{Booking, Tables, Chalet, BookingActor}
use tamam.Chalet.Service.Create.{HoldInput}
use tamam.Chalet.Service.Table.{
  refuses, expire_lapsed_holds, expire_if, expired_row, is_lapsed_hold,
}
use tamam.Chalet.Service.Visit.{release_holds}
use tamam.Prelude.{
  ℕ, ◌<◌, ap, ◌≡◌, Bool, true, false, ◌&&◌, List, [], ◌∷◌, map, some, inl, inr, Bool-cases,
}
use tamam.Prelude.Data.{◌===◌}
use tamam.Prelude.Lists.{find?, any, includes}
use tamam.Shared.Enums.{ChaletBookingStatus, booking_status_eq}
use tamam.Shared.Text.{string_eq}

-- The transaction of expireHolds ends every booking whose id was read, whatever its status has become
-- since.
pub release_holds-found :
    (ids : List String) (tables : Tables) (id : String) (b : Booking)
    → includes ids id ≡ true
    → find? (λ x. x.id === id) tables.bookings ≡ some b
    → find? (λ x. x.id === id) (release_holds ids tables).bookings ≡ some (expired_row b)
unfolding release_holds
release_holds-found ids tables id b h f = released tables.bookings f
  where
    released :
        (rows : List Booking)
        → find? (λ x. x.id === id) rows ≡ some b
        → find? (λ x. x.id === id) (map (expire_if (λ r. includes ids r.id)) rows)
          ≡ some (expired_row b)
    released [] f = cc
    released (r ∷ rows) f = elim (Bool-cases (r.id === id)) [
      | inl same ↦
          let e = (string_eq.beq_iff r.id id).0 same in
          let named : includes ids r.id ≡ true = rw e h in
          let first : some r ≡ some b = rw same at f in
          let is_b : r ≡ b = cc in rw (named, same) (ap (λ x. some (expired_row x)) is_b)
      | inr other ↦
          let later : find? (λ x. x.id === id) rows ≡ some b = rw other at f in
          elim (Bool-cases (includes ids r.id)) [
            | inl e ↦ rw (e, other) (released rows later)
            | inr e ↦ rw (e, other) (released rows later)
          ]
    ]

-- The lapsed holds of a chalet are gone once they are released.
abbrev pub stays_lapsed : String → ℕ → Booking → Bool
stays_lapsed chalet now b = b.chalet_id === chalet && is_lapsed_hold now b

-- A hold on a slot in the future, for the customer, beside no booking that holds its slot and no
-- hold that has run out.
pub record IsTaken (actor : BookingActor) (input : HoldInput) (now : ℕ) (tables : Tables)
    (taken : Booking × Tables) : Type 0 where
  pub ahead : now < input.slot.start_at
  pub starts : taken.0.start_at ≡ input.slot.start_at
  pub is_held : taken.0.status ≡ ChaletBookingStatus.held
  pub for_customer : taken.0.customer_id ≡ some actor.id
  pub stored :
      taken.1.bookings ≡ taken.0 ∷ (expire_lapsed_holds taken.0.chalet_id now tables).bookings
  pub alone :
      any (refuses taken.0) (expire_lapsed_holds taken.0.chalet_id now tables).bookings ≡ false
  pub released :
      any
        (stays_lapsed taken.0.chalet_id now)
        (expire_lapsed_holds taken.0.chalet_id now tables).bookings
      ≡ false
