-- ===== src/Chalet/Service/Runs/Released.antt =====
-- What a cancellation releases.
use Prim.Native.String.{String}
use tamam.Chalet.Service.{Booking, Tables, Catalogue, BookingActor}
use tamam.Chalet.Service.Apart.{IsApart, excluded, ===_comm}
use tamam.Chalet.Service.Calls.{booking_of-found, cancel-parts}
use tamam.Chalet.Service.Kept.{found_apart, any-weaker}
use tamam.Chalet.Service.Runs.{Runs}
use tamam.Chalet.Service.Runs.Safe.{Runs-IsSound}
use tamam.Chalet.Service.Stay.{booking_of, cancel, cancelled_row, Cancellation}
use tamam.Chalet.Service.Table.{holds_slot, clashes, refuses, others, replace_row}
use tamam.Chalet.Service.Writes.{IsSound}
use tamam.Prelude.{
  ◌||◌, ℕ, ◌≤◌, refl, sym, ◌∙◌, ◌≡◌, Bool, true, false, ◌&&◌, List, [], ◌∷◌, inl, inr, Bool-cases,
  ltb, and_split, or_split, arith,
}
use tamam.Prelude.Data.{◌===◌}
use tamam.Prelude.Lists.{any}
use tamam.Shared.Errors.{ok, ok-injective}
use tamam.Shared.Text.{string_eq}

-- A slot within the one of a booking, at the same chalet.
pub record IsInside (b row : Booking) : Type 0 where
  pub at_chalet : row.chalet_id ≡ b.chalet_id
  pub starts_after : b.start_at ≤ row.start_at
  pub ends_before : row.blocked_until ≤ b.blocked_until

within-clashes :
    (b row r : Booking)
    → IsInside b row
    → holds_slot b ≡ true
    → clashes row r ≡ true
    → clashes b r ≡ true
unfolding clashes
within-clashes b row r within mine h =
    let (holding, place) = and_split (holds_slot row && holds_slot r) _ h in
    let (_, theirs) = and_split (holds_slot row) _ holding in
    let here = rw within.at_chalet at place in
    let (chalet, range) = and_split (b.chalet_id === r.chalet_id) _ here in
    let first = within.starts_after in
    let last = within.ends_before in rw (mine, theirs, chalet) (wider _ _ _ _ _ _ first last range)
  where
    wider :
        (a b c d s e : ℕ) → s ≤ a → b ≤ e → ltb a d && ltb c b ≡ true → ltb s d && ltb c e ≡ true
    wider a b c d s e h k l = ground arith

-- A row with no slot clashes with nothing.
open_row : (row r : Booking) → holds_slot r ≡ false → clashes row r ≡ false
unfolding clashes
open_row row r h = rw h (none_held (holds_slot row) _)
  where
    none_held : (x y : Bool) → (x && false) && y ≡ false
    none_held x y = ground arith

-- No row of a list that another refuses none of has its id.
others_all :
    (p : Booking → Bool) (r : Booking) (rows : List Booking) (id : String)
    → r.id ≡ id
    → any (refuses r) rows ≡ false
    → any p (others id rows) ≡ false
    → any p rows ≡ false
others_all p r [] id e first h = refl
others_all p r (x ∷ rows) id e first h =
    let (ids, _, later) = excluded r x rows first in
    let apart : (id === x.id) ≡ false = rw e at ids in
    let flipped = ===_comm x.id id ∙ apart in
    let parts : (p x || any p (others id rows)) ≡ false = rw flipped at h in
    let (here, rest) = or_split (p x) (any p (others id rows)) parts in
    rw here (others_all p r rows id e later rest)

-- A row that clashes with nothing but the row written anew, which holds no slot.
cleared :
    (row gone : Booking) (rows : List Booking)
    → holds_slot gone ≡ false
    → any (clashes row) (others gone.id rows) ≡ false
    → IsApart rows
    → any (clashes row) (replace_row gone rows) ≡ false
unfolding replace_row
cleared row gone [] g h apart = refl
cleared row gone (r ∷ rows) g h (first, apart) = elim (Bool-cases (r.id === gone.id)) [
  | inl same ↦
      let rest : any (clashes row) (others gone.id rows) ≡ false = rw same at h in
      rw (same, open_row row gone g)
        (others_all (clashes row) r rows gone.id ((string_eq.beq_iff r.id gone.id).0 same) first
          rest)
  | inr other ↦
      let parts : (clashes row r || any (clashes row) (others gone.id rows)) ≡ false =
        rw other at h in
      let (here, rest) = or_split (clashes row r) (any (clashes row) (others gone.id rows)) parts in
      rw (other, here) (cleared row gone rows g rest apart)
]

-- After any calls, once cancel has returned for a booking that held its slot, a row for the same
-- chalet within that slot clashes with no booking.
pub cancel-Releases :
    (catalogue : Catalogue) (first tables : Tables) (actor : BookingActor) (id : String) (now : ℕ)
    (b row : Booking) (result : Cancellation × Tables)
    → IsSound first.bookings
    → Runs catalogue first tables
    → booking_of tables id ≡ ok b
    → holds_slot b ≡ true
    → cancel catalogue actor id now tables ≡ ok result
    → IsInside b row
    → any (clashes row) result.1.bookings ≡ false
cancel-Releases catalogue first tables actor id now b row result sound runs found holds h within =
    let (apart, _) = Runs-IsSound catalogue first tables sound runs in
    let (c, _, same, _, _, _, e) = cancel-parts catalogue actor id now tables result h in
    let c_is_b : c ≡ b = ok-injective c b (sym same ∙ found) in
    let free = found_apart b tables.bookings id apart (booking_of-found tables id b found) in
    rw (e, c_is_b)
      (cleared row (cancelled_row b actor now) tables.bookings refl
        (any-weaker (clashes b) (clashes row) (others b.id tables.bookings)
          (λ r. within-clashes b row r within holds) free)
        apart)
