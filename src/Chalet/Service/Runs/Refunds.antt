-- ===== src/Chalet/Service/Runs/Refunds.antt =====
-- What a cancellation gives back.
use Prim.Native.String.{String}
use tamam.Chalet.Bookings.{CancellationPolicy, refund_percent_for}
use tamam.Chalet.Service.{Booking, Tables, Chalet, Catalogue, BookingActor}
use tamam.Chalet.Service.Calls.{cancel-parts}
use tamam.Chalet.Service.Create.{chalet_of}
use tamam.Chalet.Service.Stay.{
  booking_of, cancel, cancellation_of, cancellation_policy_of, Cancellation, is_guest, refund_share,
}
use tamam.Money.{one}
use tamam.Money.Rounding.{percent_of-bounds, percent_of-whole}
use tamam.Prelude.{
  ◌⊎◌, ℕ, ◌≤◌, ◌*◌, refl, sym, ◌∙◌, ◌≡◌, true, false, not, ◌&&◌, inl, inr, Bool-cases, arith,
}
use tamam.Prelude.Data.{◌===◌}
use tamam.Prelude.Int.{ℤ, pos, leb_ℤ, ◌≤ℤ◌}
use tamam.Shared.Errors.{ok, ok-injective}
use tamam.Shared.Text.{string_eq}

refund_percent_for-le :
    (policy : CancellationPolicy) (minutes : ℤ)
    → policy.refund_percent_after_window ≤ 100
    → refund_percent_for policy minutes ≤ 100
unfolding refund_percent_for
refund_percent_for-le policy minutes h =
    elim (Bool-cases (leb_ℤ (pos (policy.free_cancellation_hours * 60)) minutes)) [
      | inl e ↦ rw e (omega arith)
      | inr e ↦ elim (Bool-cases (leb_ℤ minutes (pos 0))) [
        | inl f ↦ rw (e, f) (omega arith)
        | inr f ↦ rw (e, f) h
      ]
    ]

refund_share-le :
    (chalet : Chalet) (b : Booking) (actor : BookingActor) (now : ℕ)
    → (cancellation_policy_of chalet.cancellation_policy).refund_percent_after_window ≤ 100
    → refund_share chalet b actor now ≤ 100
unfolding refund_share
refund_share-le chalet b actor now h =
    elim (Bool-cases (chalet.owner_id === actor.id && not (is_guest b actor))) [
      | inl e ↦ rw e (omega arith)
      | inr e ↦ rw e (refund_percent_for-le (cancellation_policy_of chalet.cancellation_policy) _ h)
    ]

refund_share-owner :
    (chalet : Chalet) (b : Booking) (actor : BookingActor) (now : ℕ)
    → (chalet.owner_id === actor.id && not (is_guest b actor)) ≡ true
    → refund_share chalet b actor now ≡ 100
unfolding refund_share
refund_share-owner chalet b actor now h = rw h refl

-- A refund of nothing less than 0 and nothing more than was paid, and of all of it when the owner
-- cancels.
abbrev pub Refunds : Chalet → Booking → BookingActor → Cancellation → Type 0
Refunds chalet b actor cancellation =
    (pos 0 ≤ℤ cancellation.refund_minor)
    × (cancellation.refund_minor ≤ℤ pos b.total_amount_minor)
    × (((chalet.owner_id === actor.id && not (is_guest b actor)) ≡ false)
        ⊎ (cancellation.refund_minor ≡ pos b.total_amount_minor))

cancellation_of-Refunds :
    (actor : BookingActor) (now : ℕ) (chalet : Chalet) (b : Booking)
    → (cancellation_policy_of chalet.cancellation_policy).refund_percent_after_window ≤ 100
    → Refunds chalet b actor (cancellation_of actor now chalet b)
cancellation_of-Refunds actor now chalet b h =
    let share = refund_share-le chalet b actor now h in
    let (low, high) =
      percent_of-bounds b.total_amount_minor (refund_share chalet b actor now * one)
        (omega arith) in
    (
      low,
      high,
      elim (Bool-cases (chalet.owner_id === actor.id && not (is_guest b actor))) [
        | inl e ↦
            inr
              (rw (refund_share-owner chalet b actor now e) (percent_of-whole b.total_amount_minor))
        | inr e ↦ inl e
      ],
    )

-- When cancel returns, and the policy gives back at most 100 percent after its window, the refund is
-- between 0 and the total of the booking, and it is the whole total when the owner cancels the
-- booking of another.
pub cancel-Refunds :
    (catalogue : Catalogue) (tables : Tables) (actor : BookingActor) (id : String) (now : ℕ)
    (b : Booking) (chalet : Chalet) (result : Cancellation × Tables)
    → booking_of tables id ≡ ok b
    → chalet_of catalogue b.chalet_id ≡ ok chalet
    → (cancellation_policy_of chalet.cancellation_policy).refund_percent_after_window ≤ 100
    → cancel catalogue actor id now tables ≡ ok result
    → Refunds chalet b actor result.0
cancel-Refunds catalogue tables actor id now b chalet result found here bounded h =
    let (c, owned, same, at, _, e, _) = cancel-parts catalogue actor id now tables result h in
    let c_is_b : c ≡ b = ok-injective c b (sym same ∙ found) in
    let there : chalet_of catalogue b.chalet_id ≡ ok owned = rw c_is_b at at in
    let owned_is : owned ≡ chalet = ok-injective owned chalet (sym there ∙ here) in
    rw (e, c_is_b, owned_is) (cancellation_of-Refunds actor now chalet b bounded)
