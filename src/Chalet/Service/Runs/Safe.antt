-- ===== src/Chalet/Service/Runs/Safe.antt =====
-- No two bookings of a chalet that hold their slots ever overlap.
use mathlib.Core.List.{Memᴰ}
use tamam.Chalet.Calendar.{plus_minutes}
use tamam.Chalet.Service.{Booking, Tables, Catalogue}
use tamam.Chalet.Service.Apart.{IsApart, clashes_comm}
use tamam.Chalet.Service.Calls.{confirm-Writes, cancel-Writes}
use tamam.Chalet.Service.Runs.{
  Step, held, recorded, confirmed, cancelled, checked_in, checked_out, extended, swept, Runs, start,
  step,
}
use tamam.Chalet.Service.Runs.Visits.{
  hold-Writes, create_external-Writes, check_in-Writes, check_out-Writes, extend-Writes,
}
use tamam.Chalet.Service.Table.{holds_slot, clashes, refuses}
use tamam.Chalet.Service.Visit.{release_holds}
use tamam.Chalet.Service.Writes.{Writes, unchanged, expired, IsSound, IsTimed, Writes-IsSound}
use tamam.Prelude.{
  ℕ, ◌≡◌, ◌≤◌, ◌⊎◌, true, false, ◌&&◌, List, [], ◌∷◌, ltb, or_split, arith, sym, ap, ◌∙◌, inl, inr,
  Bool-cases,
}
use tamam.Prelude.Data.{◌===◌}
use tamam.Prelude.Lists.{any, any-mem, All, includes}
use tamam.Shared.Text.{string_eq}

Step-Writes :
    (catalogue : Catalogue) (tables after : Tables)
    → Step catalogue tables after
    → Writes tables.bookings after.bookings
unfolding release_holds
Step-Writes catalogue tables after (held actor input id now result h) =
    hold-Writes catalogue actor input id now tables result h
Step-Writes catalogue tables after (recorded actor chalet_id input id now result h) =
    create_external-Writes catalogue actor chalet_id input id now tables result h
Step-Writes catalogue tables after (confirmed actor id now result h) =
    confirm-Writes actor id now tables result h
Step-Writes catalogue tables after (cancelled actor id now result h) =
    cancel-Writes catalogue actor id now tables result h
Step-Writes catalogue tables after (checked_in actor id now result h) =
    check_in-Writes catalogue actor id now tables result h
Step-Writes catalogue tables after (checked_out actor id now result h) =
    check_out-Writes catalogue actor id now tables result h
Step-Writes catalogue tables after (extended actor id minutes now result h) =
    extend-Writes catalogue actor id minutes now tables result h
Step-Writes catalogue tables after (swept ids) = expired (λ b. includes ids b.id) unchanged

pub Runs-IsSound :
    (catalogue : Catalogue) (first now : Tables)
    → IsSound first.bookings
    → Runs catalogue first now
    → IsSound now.bookings
Runs-IsSound catalogue first now h start = h
Runs-IsSound catalogue first now h (step {before} runs last) =
    Writes-IsSound (Runs-IsSound catalogue first before h runs)
      (Step-Writes catalogue before now last)

All-mem :
    (P : Booking → Type 0) (rows : List Booking) (b : Booking) → All P rows → Memᴰ b rows → P b
All-mem P [] b h m = elim m [ ]
All-mem P (r ∷ rows) b (h, k) (Memᴰ.head e) = rw (e) h
All-mem P (r ∷ rows) b (h, k) (Memᴰ.tail m) = All-mem P rows b k m

own_id : (r a b : Booking) → a ≡ r → b ≡ r → (a.id === b.id) ≡ false → ⊥
own_id r a b f g e = let same = (string_eq.beq_iff a.id b.id).1 (ap (λ x. x.id) (f ∙ sym g)) in cc

no_clash_mem :
    (r b : Booking) (rows : List Booking)
    → any (refuses r) rows ≡ false
    → Memᴰ b rows
    → clashes r b ≡ false
no_clash_mem r b rows h m = elim (Bool-cases (refuses r b)) [
  | inl e ↦ let found = any-mem (refuses r) rows b m e in cc
  | inr e ↦ (or_split (r.id === b.id) (clashes r b) e).1
]

-- Two rows apart with ids of their own do not clash.
apart-mem :
    (rows : List Booking) (a b : Booking)
    → IsApart rows
    → Memᴰ a rows
    → Memᴰ b rows
    → (a.id === b.id) ≡ false
    → clashes a b ≡ false
apart-mem [] a b h m n e = elim m [ ]
apart-mem (r ∷ rows) a b (h, apart) (Memᴰ.head f) (Memᴰ.head g) e = absurd (own_id r a b f g e)
apart-mem (r ∷ rows) a b (h, apart) (Memᴰ.head f) (Memᴰ.tail n) e = rw f (no_clash_mem r b rows h n)
apart-mem (r ∷ rows) a b (h, apart) (Memᴰ.tail m) (Memᴰ.head g) e =
    rw (g, clashes_comm a r) (no_clash_mem r a rows h m)
apart-mem (r ∷ rows) a b (h, apart) (Memᴰ.tail m) (Memᴰ.tail n) e = apart-mem rows a b apart m n e

-- One range, cleaning included, ends before the other begins.
abbrev pub Disjoint : Booking → Booking → Type 0
Disjoint a b =
    (plus_minutes a.end_at a.cleaning_duration_minutes ≤ b.start_at)
    ⊎ (plus_minutes b.end_at b.cleaning_duration_minutes ≤ a.start_at)

disjoint :
    (a b : Booking)
    → clashes a b ≡ false
    → (a.chalet_id === b.chalet_id) ≡ true
    → holds_slot a ≡ true
    → holds_slot b ≡ true
    → IsTimed a
    → IsTimed b
    → Disjoint a b
unfolding clashes
disjoint a b h e f g s t =
    let ranges : ltb a.start_at b.blocked_until && ltb b.start_at a.blocked_until ≡ false =
      rw (f, g, e) at h in
    rw (← s.cleaned, ← t.cleaned) (one_first _ _ _ _ ranges)
  where
    one_first : (a b c d : ℕ) → (ltb a d && ltb b c) ≡ false → (c ≤ b) ⊎ (d ≤ a)
    one_first a b c d h = ground arith

-- From bookings that are apart and timed, whatever calls follow: two different bookings of one chalet
-- that both hold their slots do not overlap, the cleaning after each included.
pub Runs-Disjoint :
    (catalogue : Catalogue) (first now : Tables) (a b : Booking)
    → IsSound first.bookings
    → Runs catalogue first now
    → Memᴰ a now.bookings
    → Memᴰ b now.bookings
    → (a.id === b.id) ≡ false
    → (a.chalet_id === b.chalet_id) ≡ true
    → holds_slot a ≡ true
    → holds_slot b ≡ true
    → Disjoint a b
Runs-Disjoint catalogue first now a b h runs m n ids chalet mine theirs =
    let (apart, timed) = Runs-IsSound catalogue first now h runs in
    let no_clash = apart-mem now.bookings a b apart m n ids in
    let timed_a = All-mem IsTimed now.bookings a timed m in
    let timed_b = All-mem IsTimed now.bookings b timed n in
    disjoint a b no_clash chalet mine theirs timed_a timed_b
