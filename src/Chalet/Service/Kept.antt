-- ===== src/Chalet/Service/Kept.antt =====
-- A row found among rows apart, and the changes that keep its slot.
use Prim.Native.String.{String}
use tamam.Chalet.Service.{Booking}
use tamam.Chalet.Service.Apart.{IsApart, excluded, others_of, clashes_comm}
use tamam.Chalet.Service.Table.{holds_slot, clashes, refuses, others}
use tamam.Prelude.{
  and_split, some, or_split, refl, ◌≡◌, Bool, true, false, ◌&&◌, List, [], ◌∷◌, inl, inr,
  Bool-cases,
}
use tamam.Prelude.Data.{◌===◌}
use tamam.Prelude.Lists.{find?, any}
use tamam.Shared.Enums.{booking_status_eq}
use tamam.Shared.Text.{string_eq}

-- Of rows apart, the one found clashes with none of the others.
others-found :
    (b : Booking) (rows : List Booking)
    → any (refuses b) rows ≡ false
    → any (clashes b) (others b.id rows) ≡ false
others-found b [] h = refl
others-found b (r ∷ rows) h =
    let (_, no_clash, later) = excluded b r rows h in
    let rest = others-found b rows later in
    elim (Bool-cases (r.id === b.id)) [
      | inl same ↦ rw same rest
      | inr other ↦ rw (other, no_clash) rest
    ]

refuses-found :
    (c b : Booking) (rows : List Booking) (id : String)
    → any (refuses c) rows ≡ false
    → find? (λ x. x.id === id) rows ≡ some b
    → refuses c b ≡ false
refuses-found c b [] id h f = cc
refuses-found c b (r ∷ rows) id h f =
    let (ids, clash, later) = excluded c r rows h in
    elim (Bool-cases (r.id === id)) [
      | inl same ↦
          let found : some r ≡ some b = rw same at f in
          let e : r ≡ b = cc in rw (← e) (rw (ids, clash) refl)
      | inr other ↦
          let found : find? (λ x. x.id === id) rows ≡ some b = rw other at f in
          refuses-found c b rows id later found
    ]

pub found_apart :
    (b : Booking) (rows : List Booking) (id : String)
    → IsApart rows
    → find? (λ x. x.id === id) rows ≡ some b
    → any (clashes b) (others b.id rows) ≡ false
found_apart b [] id h f = cc
found_apart b (r ∷ rows) id (h, apart) f = elim (Bool-cases (r.id === id)) [
  | inl same ↦
      let found : some r ≡ some b = rw same at f in
      let e : r ≡ b = cc in
      let mine : any (refuses b) rows ≡ false = rw e at h in
      rw (e, refl_id b) (others-found b rows mine)
  | inr other ↦
      let found : find? (λ x. x.id === id) rows ≡ some b = rw other at f in
      let (apart_id, no_clash) =
        or_split (r.id === b.id) (clashes r b) (refuses-found r b rows id h found) in
      rw (apart_id, clashes_comm b r, no_clash) (found_apart b rows id apart found)
]
  where
    refl_id : (b : Booking) → (b.id === b.id) ≡ true
    refl_id b = (string_eq.beq_iff b.id b.id).1 refl

-- A row with the slot of another, which holds it if the other does.
pub record IsSameSlot (b row : Booking) : Type 0 where
  pub same_id : row.id ≡ b.id
  pub same_chalet : row.chalet_id ≡ b.chalet_id
  pub same_start : row.start_at ≡ b.start_at
  pub same_block : row.blocked_until ≡ b.blocked_until
  pub same_end : row.end_at ≡ b.end_at
  pub same_cleaning : row.cleaning_duration_minutes ≡ b.cleaning_duration_minutes
  pub held_before : holds_slot row ≡ true → holds_slot b ≡ true

same_slot-clashes :
    (b row r : Booking) → IsSameSlot b row → clashes row r ≡ true → clashes b r ≡ true
unfolding clashes
same_slot-clashes b row r same h =
    let (holding, place) = and_split (holds_slot row && holds_slot r) _ h in
    let (mine, theirs) = and_split (holds_slot row) _ holding in
    let here = rw (same.same_chalet, same.same_start, same.same_block) at place in
    rw (same.held_before mine, theirs) here

pub any-weaker :
    (p q : Booking → Bool) (rows : List Booking)
    → ((r : Booking) → q r ≡ true → p r ≡ true)
    → any p rows ≡ false
    → any q rows ≡ false
any-weaker p q [] g h = refl
any-weaker p q (r ∷ rows) g h =
    let (first, later) = or_split (p r) (any p rows) h in
    elim (Bool-cases (q r)) [
      | inl yes_q ↦ absurd (true-false _ (g r yes_q) first)
      | inr no_q ↦ rw no_q (any-weaker p q rows g later)
    ]
  where
    true-false : (x : Bool) → x ≡ true → x ≡ false → ⊥
    true-false x h k = cc

-- A change that keeps the slot clashes with no other row.
pub same_slot-apart :
    (b row : Booking) (rows : List Booking) (id : String)
    → IsApart rows
    → find? (λ x. x.id === id) rows ≡ some b
    → IsSameSlot b row
    → any (clashes row) (others row.id rows) ≡ false
same_slot-apart b row rows id apart f same = others_of (clashes row) rows row.id b.id same.same_id (
    any-weaker (clashes b) (clashes row) (others b.id rows) (λ r. same_slot-clashes b row r same)
      (found_apart b rows id apart f))
