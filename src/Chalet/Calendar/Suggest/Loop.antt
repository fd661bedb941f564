-- ===== src/Chalet/Calendar/Suggest/Loop.antt =====
-- The loop of `suggestStartTimes` ends, and finds the bookable starts of the grid.
use mathlib.Core.Option
use native.Mathlib.Decide.{dec_lt}
use tamam.Chalet.Calendar.{overlaps, Interval}
use tamam.Chalet.Calendar.Suggest.{claimed, ceil_on_grid, conflict, suggest_loop, Search}
use tamam.Chalet.Calendar.Suggest.Grid.{
  ceil-OnGrid, step-OnGrid, le-ceil, next_point, ceil-le, OnGrid,
}
use tamam.Prelude.{
  zero, or_left, Option-cases, tests, ap, ltb, Bool-cases, or_right, inr, inl, ◌⊎◌, suc, arith, ◌+◌,
  ◌≤◌, true, Option, ◌<◌, ℕ, ◌≡◌, refl, List, [], ◌∷◌, some, none,
}
use tamam.Prelude.Data.{◌===◌, nat_eq}
use tamam.Prelude.Lists.{find?-ne-none, find?-satisfies, length, All, includes}

-- A start that can be booked: a point of the grid from `from` on, from which the booking ends by
-- closing time, and with its cleaning avoids everything occupied.
pub record IsStart (s : Search) (earliest t : ℕ) : Type 0 where
  pub on_grid : OnGrid s.step s.anchor t
  pub in_time : earliest ≤ t
  pub fits : t + s.booking ≤ s.span_end
  pub clear : conflict s t ≡ none

-- A start is listed, or the list is full of earlier ones.
abbrev pub IsFound : ℕ → List ℕ → ℕ → Type 0
IsFound room ts t = (includes ts t ≡ true) ⊎ ((length ts ≡ room) × All (λ u. u < t) ts)

-- What the loop gives.
abbrev pub Finds : Search → ℕ → ℕ → Option (List ℕ) → Type 0
Finds s candidate room none = ⊥
Finds s candidate room (some ts) =
    All (IsStart s candidate) ts
    × (length ts ≤ room)
    × ((t : ℕ) → IsStart s candidate t → IsFound room ts t)

module _ (s : Search) (positive : 0 < s.step) where
  later-IsStart : (b c t : ℕ) → c ≤ b → IsStart s b t → IsStart s c t
  later-IsStart b c t h k = record {
    on_grid = k.on_grid;
    in_time = omega (arith, k.in_time);
    fits = k.fits;
    clear = k.clear;
  }

  All-later : (b c : ℕ) (ts : List ℕ) → c ≤ b → All (IsStart s b) ts → All (IsStart s c) ts
  All-later b c [] h k = tt
  All-later b c (t ∷ ts) h k = (later-IsStart b c t h k.0, All-later b c ts h k.1)

  -- Nothing before the end of a conflict can be booked.
  after_conflict :
      (c t : ℕ) (o : Interval)
      → conflict s c ≡ some o
      → IsStart s c t
      → ceil_on_grid s.step s.anchor o.end_at ≤ t
  after_conflict c t o found k = elim (dec_lt t o.end_at) [
    | no n ↦ ceil-le s.step s.anchor positive o.end_at t k.on_grid (omega arith)
    | yes y ↦
        let meets = find?-satisfies (λ i. overlaps i (claimed s c)) s.occupied o found in
        absurd (
          find?-ne-none (λ i. overlaps i (claimed s c)) (λ i. overlaps i (claimed s t)) s.occupied o
            found (ground (arith, k.in_time)) k.clear)
  ]

  conflict-end :
      (c : ℕ) (o : Interval) → conflict s c ≡ some o → c < ceil_on_grid s.step s.anchor o.end_at
  conflict-end c o found =
      let meets = find?-satisfies (λ i. overlaps i (claimed s c)) s.occupied o found in
      let ends : c < o.end_at = ground arith in
      omega (arith, le-ceil s.step s.anchor positive o.end_at)

  -- What is found from the end of a conflict on is what is found from the candidate.
  Finds-after_conflict :
      (c room : ℕ) (o : Interval) (r : Option (List ℕ))
      → conflict s c ≡ some o
      → Finds s (ceil_on_grid s.step s.anchor o.end_at) room r
      → Finds s c room r
  Finds-after_conflict c room o none found f = f
  Finds-after_conflict c room o (some ts) found (starts, short, all_found) = (
    All-later (ceil_on_grid s.step s.anchor o.end_at) c ts (omega (arith, conflict-end c o found))
        starts,
    short,
    λ t k. all_found t (record {
      on_grid = k.on_grid;
      in_time = after_conflict c t o found k;
      fits = k.fits;
      clear = k.clear;
    }),
  )

  -- A start found at the candidate goes before those found from the next point on.
  Finds-cons :
      (c room : ℕ) (r : Option (List ℕ))
      → IsStart s c c
      → Finds s (c + s.step) room r
      → Finds s c (suc room) (Option.map (◌∷◌ c) r)
  Finds-cons c room none h f = f
  Finds-cons c room (some ts) h (starts, short, all_found) =
      ((h, All-later (c + s.step) c ts (omega arith) starts), omega arith, found)
    where
      later : (t : ℕ) → c < t → IsFound room ts t → IsFound (suc room) (c ∷ ts) t
      later t lt (inl e) = inl (or_right (c === t) _ e)
      later t lt (inr (full, before)) = inr (ap suc full, (lt, before))

      found : (t : ℕ) → IsStart s c t → IsFound (suc room) (c ∷ ts) t
      found t k = elim (dec_lt c t) [
        | yes y ↦ later t y (
            all_found t (record {
              on_grid = k.on_grid;
              in_time = next_point s.step s.anchor positive c t h.on_grid k.on_grid y;
              fits = k.fits;
              clear = k.clear;
            }))
        | no n ↦ inl (or_left (c === t) _ ((nat_eq.beq_iff c t).1 (omega (arith, k.in_time))))
      ]

  -- With fuel for the milliseconds that are left, the loop returns: starts that can be booked,
  -- no more than asked for, and all there are unless the list is full of earlier ones.
  pub suggest_loop-Finds :
      (fuel c room : ℕ)
      → OnGrid s.step s.anchor c
      → 0 < fuel
      → s.span_end + 1 < c + fuel
      → Finds s c room (suggest_loop fuel s c room)
  unfolding suggest_loop
  suggest_loop-Finds zero c room g p m = absurd (omega arith)
  suggest_loop-Finds (suc fuel) c zero g p m = (tt, omega arith, λ t k. inr (refl, tt))
  suggest_loop-Finds (suc fuel) c (suc room) g p m =
      elim (Bool-cases (ltb s.span_end (c + s.booking))) [
        | inl late ↦
            rw (late, suggest_loop)
              (tt, omega arith, λ t k. absurd (omega (tests, k.fits, k.in_time)))
        | inr fits ↦ elim (Option-cases (conflict s c)) [
          | inl clear ↦
              rw (fits, clear, suggest_loop)
                (Finds-cons c room _
                  (record {
                    on_grid = g;
                    in_time = omega arith;
                    fits = ground arith;
                    clear = clear;
                  })
                  (suggest_loop-Finds fuel (c + s.step) room
                    (step-OnGrid s.step s.anchor positive c g) (ground arith) (ground arith)))
          | inr (o, found) ↦
              let in_day : c + s.booking ≤ s.span_end = ground arith in
              let forth = conflict-end c o found in
              rw (fits, found, suggest_loop)
                (Finds-after_conflict c (suc room) o _ found (
                  suggest_loop-Finds fuel (ceil_on_grid s.step s.anchor o.end_at) (suc room)
                    (ceil-OnGrid s.step s.anchor positive o.end_at) (omega arith) (omega arith)))
        ]
      ]
