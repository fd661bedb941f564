-- ===== src/Chalet/Service/Writes.antt =====
-- The writes of a call on the table of bookings, one after another, and what they keep.
use Prim.Native.String.{String}
use tamam.Chalet.Calendar.{plus_minutes}
use tamam.Chalet.Service.{Booking}
use tamam.Chalet.Service.Apart.{IsApart, expire-IsApart, replace-IsApart}
use tamam.Chalet.Service.Kept.{IsSameSlot, same_slot-apart}
use tamam.Chalet.Service.Table.{clashes, refuses, others, replace_row, expire_if, synced}
use tamam.Prelude.{
  ℕ, refl, ◌≡◌, ◌<◌, Bool, false, List, [], ◌∷◌, map, some, inl, inr, Bool-cases, leb, arith,
}
use tamam.Prelude.Data.{◌===◌}
use tamam.Prelude.Lists.{find?, any, All}
use tamam.Shared.Errors.{ok, then_ok, throw_if, throw_if-ok, ok-injective}
use tamam.Shared.Text.{string_eq}

pub data Writes (rows : List Booking) : List Booking → Type 0 where
  unchanged : Writes rows rows
  inserted :
      {now : List Booking} (asked made : Booking)
      → Writes rows now
      → synced asked ≡ ok made
      → any (refuses made) now ≡ false
      → Writes rows (made ∷ now)
  moved :
      {now : List Booking} (asked made : Booking)
      → Writes rows now
      → synced asked ≡ ok made
      → any (clashes made) (others made.id now) ≡ false
      → Writes rows (replace_row made now)
  changed :
      {now : List Booking} (b row : Booking) (id : String)
      → Writes rows now
      → find? (λ x. x.id === id) now ≡ some b
      → IsSameSlot b row
      → Writes rows (replace_row row now)
  expired :
      {now : List Booking} (p : Booking → Bool)
      → Writes rows now
      → Writes rows (map (expire_if p) now)

-- A booking that ends after it starts and whose range runs on for the cleaning.
pub record IsTimed (b : Booking) : Type 0 where
  pub proper : b.start_at < b.end_at
  pub cleaned : b.blocked_until ≡ plus_minutes b.end_at b.cleaning_duration_minutes

synced-IsTimed : (asked made : Booking) → synced asked ≡ ok made → IsTimed made
unfolding synced
synced-IsTimed asked made h =
    let (proper, made_is) = then_ok (throw_if (leb asked.end_at asked.start_at) _) (ok _) h in
    let e = throw_if-ok _ _ proper in
    rw (← ok-injective _ made made_is) (record { proper = after _ _ e; cleaned = refl })
  where
    after : (a b : ℕ) → leb a b ≡ false → b < a
    after a b h = ground arith

same_slot-IsTimed : (b row : Booking) → IsSameSlot b row → IsTimed b → IsTimed row
same_slot-IsTimed b row same h = record {
  proper = rw (same.same_start, same.same_end) (h.proper);
  cleaned = rw (same.same_block, same.same_end, same.same_cleaning) (h.cleaned);
}

expire_if-IsTimed : (p : Booking → Bool) (b : Booking) → IsTimed b → IsTimed (expire_if p b)
expire_if-IsTimed p b h = elim (Bool-cases (p b)) [
  | inl e ↦ rw e (record { proper = h.proper; cleaned = h.cleaned })
  | inr e ↦ rw e h
]

module _ (P : Booking → Type 0) where
  All-map :
      (f : Booking → Booking) (rows : List Booking)
      → ((b : Booking) → P b → P (f b))
      → All P rows
      → All P (map f rows)
  All-map f [] g h = tt
  All-map f (b ∷ rows) g (h, k) = (g b h, All-map f rows g k)

  All-replace :
      (row : Booking) (rows : List Booking) → P row → All P rows → All P (replace_row row rows)
  unfolding replace_row
  All-replace row [] h k = tt
  All-replace row (b ∷ rows) h (k, l) = elim (Bool-cases (b.id === row.id)) [
    | inl e ↦ rw e (h, l)
    | inr e ↦ rw e (k, All-replace row rows h l)
  ]

  All-find :
      (q : Booking → Bool) (rows : List Booking) (b : Booking)
      → All P rows
      → find? q rows ≡ some b
      → P b
  All-find q [] b h f = cc
  All-find q (r ∷ rows) b (h, k) f = elim (Bool-cases (q r)) [
    | inl e ↦ let found : some r ≡ some b = rw e at f in let same : r ≡ b = cc in rw (← same) h
    | inr e ↦ let found : find? q rows ≡ some b = rw e at f in All-find q rows b k found
  ]

-- The bookings are apart, and each is timed.
abbrev pub IsSound : List Booking → Type 0
IsSound rows = IsApart rows × All IsTimed rows

pub Writes-IsSound : {rows now : List Booking} → IsSound rows → Writes rows now → IsSound now
Writes-IsSound h unchanged = h
Writes-IsSound h (inserted asked made w s e) =
    let (apart, timed) = Writes-IsSound h w in ((e, apart), (synced-IsTimed asked made s, timed))
Writes-IsSound h (moved asked made w s e) =
    let (apart, timed) = Writes-IsSound h w in
    (replace-IsApart made _ apart e, All-replace IsTimed made _ (synced-IsTimed asked made s) timed)
Writes-IsSound h (changed b row id w f same) =
    let (apart, timed) = Writes-IsSound h w in
    (
      replace-IsApart row _ apart (same_slot-apart b row _ id apart f same),
      All-replace IsTimed row _ (same_slot-IsTimed b row same (All-find IsTimed _ _ b timed f))
          timed,
    )
Writes-IsSound h (expired p w) =
    let (apart, timed) = Writes-IsSound h w in
    (expire-IsApart p _ apart, All-map IsTimed (expire_if p) _ (expire_if-IsTimed p) timed)
