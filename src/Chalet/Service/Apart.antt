-- ===== src/Chalet/Service/Apart.antt =====
-- Bookings of one chalet that hold their slots never meet: what each write does to that.
use Prim.Native.String.{String}
use tamam.Chalet.Service.{Booking}
use tamam.Chalet.Service.Table.{holds_slot, clashes, refuses, others, replace_row, expire_if}
use tamam.Prelude.{
  or_left, or_split, ap₂, refl, sym, ◌∙◌, ◌≡◌, Bool, true, false, ◌&&◌, ◌||◌, List, [], ◌∷◌, map,
  inl, inr, Bool-cases, arith, ltb,
}
use tamam.Prelude.Data.{Eq, ◌===◌}
use tamam.Prelude.Lists.{any}
use tamam.Shared.Enums.{booking_status_eq}
use tamam.Shared.Text.{string_eq}

-- No row refuses another: ids differ, and rows that hold slots of one chalet do not overlap.
abbrev pub IsApart : List Booking → Type 0
IsApart [] = Unit
IsApart (b ∷ rest) = (any (refuses b) rest ≡ false) × IsApart rest

false-true : false ≡ true → ⊥
false-true h = cc

pub ===_comm {ℓ} : {A : Type ℓ} ⦃e : Eq A⦄ (a b : A) → (a === b) ≡ (b === a)
===_comm ⦃e⦄ a b =
    same (a === b) (b === a) (λ h. (e.beq_iff b a).1 (sym ((e.beq_iff a b).0 h)))
      (λ h. (e.beq_iff a b).1 (sym ((e.beq_iff b a).0 h)))
  where
    same : (x y : Bool) → (x ≡ true → y ≡ true) → (y ≡ true → x ≡ true) → x ≡ y
    same true y f g = sym (f refl)
    same false true f g = g refl
    same false false f g = refl

pub clashes_comm : (a b : Booking) → clashes a b ≡ clashes b a
unfolding clashes
clashes_comm a b =
    swapped (holds_slot a) (holds_slot b) (a.chalet_id === b.chalet_id)
      (b.chalet_id === a.chalet_id) (ltb a.start_at b.blocked_until)
      (ltb b.start_at a.blocked_until) (===_comm a.chalet_id b.chalet_id)
  where
    swapped :
        (x y s t u v : Bool) → s ≡ t → ((x && y) && (s && (u && v))) ≡ ((y && x) && (t && (v && u)))
    swapped x y s t u v h = ground arith

refuses_comm : (a b : Booking) → refuses a b ≡ refuses b a
refuses_comm a b = ap₂ (λ x y. x || y) (===_comm a.id b.id) (clashes_comm a b)

both_narrow :
    (x y s t : Bool)
    → (y ≡ true → x ≡ true)
    → (s ≡ false → t ≡ false)
    → (x || s) ≡ false
    → (y || t) ≡ false
both_narrow true y s t f g h = cc
both_narrow false true s t f g h = absurd (false-true (f refl))
both_narrow false false s t f g h = g h

-- A change of a row that keeps what it refuses within what it excluded.
module _ (f : Booking → Booking)
    (narrows : (a b : Booking) → refuses (f a) (f b) ≡ true → refuses a b ≡ true) where
  any-refuses-map :
      (b : Booking) (rows : List Booking)
      → any (refuses b) rows ≡ false
      → any (refuses (f b)) (map f rows) ≡ false
  any-refuses-map b [] h = refl
  any-refuses-map b (r ∷ rows) h =
      let later = any-refuses-map b rows in
      both_narrow (refuses b r) (refuses (f b) (f r)) _ _ (narrows b r) later h

  pub map-IsApart : (rows : List Booking) → IsApart rows → IsApart (map f rows)
  map-IsApart [] h = tt
  map-IsApart (b ∷ rows) (h, k) = (any-refuses-map b rows h, map-IsApart rows k)

expire_if-narrows :
    (p : Booking → Bool) (a b : Booking)
    → refuses (expire_if p a) (expire_if p b) ≡ true
    → refuses a b ≡ true
unfolding clashes
expire_if-narrows p a b h = elim (Bool-cases (p a)) [
  | inl e ↦ elim (Bool-cases (p b)) [
    | inl f ↦ or_left _ _ (only_id _ (rw (e, f) at h))
    | inr f ↦ or_left _ _ (only_id _ (rw (e, f) at h))
  ]
  | inr e ↦ elim (Bool-cases (p b)) [
    | inl f ↦ or_left _ _ (other_id _ (holds_slot a) _ (rw (e, f) at h))
    | inr f ↦ rw (e, f) at h
  ]
]
  where
    only_id : (x : Bool) → (x || false) ≡ true → x ≡ true
    only_id x h = ground arith

    other_id : (x y z : Bool) → (x || ((y && false) && z)) ≡ true → x ≡ true
    other_id x y z h = ground arith

pub expire-IsApart :
    (p : Booking → Bool) (rows : List Booking) → IsApart rows → IsApart (map (expire_if p) rows)
expire-IsApart p rows h = map-IsApart (expire_if p) (expire_if-narrows p) rows h

-- What a row apart from a list is apart from.
pub excluded :
    (b r : Booking) (rows : List Booking)
    → any (refuses b) (r ∷ rows) ≡ false
    → (b.id === r.id ≡ false) × (clashes b r ≡ false) × (any (refuses b) rows ≡ false)
excluded b r rows h =
    let (first, later) = or_split (refuses b r) (any (refuses b) rows) h in
    let (ids, clash) = or_split (b.id === r.id) (clashes b r) first in (ids, clash, later)

pub others_of :
    (p : Booking → Bool) (rows : List Booking) (a b : String)
    → a ≡ b
    → any p (others b rows) ≡ false
    → any p (others a rows) ≡ false
others_of p rows a b e h = rw e h

-- A row that clashes with none of the others refuses none of the rows without its id.
fresh :
    (b row : Booking) (rows : List Booking)
    → b.id ≡ row.id
    → any (refuses b) rows ≡ false
    → any (clashes row) (others row.id rows) ≡ false
    → any (refuses row) rows ≡ false
fresh b row [] e h k = refl
fresh b row (r ∷ rows) e h k =
    let (other_id, _, later) = excluded b r rows h in
    let apart : (row.id === r.id) ≡ false = rw e at other_id in
    let flipped = ===_comm r.id row.id ∙ apart in
    let kept : (clashes row r || any (clashes row) (others row.id rows)) ≡ false =
      rw flipped at k in
    let (no_clash, rest) = or_split (clashes row r) (any (clashes row) (others row.id rows)) kept in
    rw (apart, no_clash) (fresh b row rows e later rest)

kept_apart :
    (c row : Booking) (rows : List Booking)
    → refuses c row ≡ false
    → any (refuses c) rows ≡ false
    → any (refuses c) (replace_row row rows) ≡ false
unfolding replace_row
kept_apart c row [] e h = refl
kept_apart c row (r ∷ rows) e h =
    let (ids, clash, later) = excluded c r rows h in
    let rest = kept_apart c row rows e later in
    let (row_ids, row_clash) = or_split (c.id === row.id) (clashes c row) e in
    elim (Bool-cases (r.id === row.id)) [
      | inl same ↦ rw (same, row_ids, row_clash) later
      | inr other ↦ rw (other, ids, clash) rest
    ]

-- A row written anew that clashes with none of the others.
pub replace-IsApart :
    (row : Booking) (rows : List Booking)
    → IsApart rows
    → any (clashes row) (others row.id rows) ≡ false
    → IsApart (replace_row row rows)
unfolding replace_row
replace-IsApart row [] h k = tt
replace-IsApart row (b ∷ rows) (h, apart) k = elim (Bool-cases (b.id === row.id)) [
  | inl same ↦
      let rest = rw same at k in
      rw same (fresh b row rows ((string_eq.beq_iff b.id row.id).0 same) h rest, apart)
  | inr other ↦
      let parts : (clashes row b || any (clashes row) (others row.id rows)) ≡ false =
        rw other at k in
      let (first, rest) = or_split (clashes row b) (any (clashes row) (others row.id rows)) parts in
      rw other (
        kept_apart b row rows (rw (other, clashes_comm b row) first) h,
        replace-IsApart row rows apart rest,
      )
]
