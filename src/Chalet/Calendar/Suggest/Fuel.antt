-- ===== src/Chalet/Calendar/Suggest/Fuel.antt =====
-- The fuel of the loop of `suggestStartTimes` is enough: more of it changes nothing.
use mathlib.Core.Option
use tamam.Chalet.Calendar.Suggest.{ceil_on_grid, conflict, suggest_loop, Search}
use tamam.Chalet.Calendar.Suggest.Grid.{OnGrid}
use tamam.Chalet.Calendar.Suggest.Loop.{suggest_loop-Finds}
use tamam.Prelude.{
  zero, Option-cases, ltb, Bool-cases, inr, inl, suc, arith, ◌+◌, ◌≤◌, ◌<◌, Option, ℕ, ◌≡◌, refl,
  List, [], ◌∷◌, some, none, sym, ap, ◌∙◌,
}

none-some : {A : Type 0} (a : A) → none ≡ some a → ⊥
none-some a h = cc

-- A list in front of which a start was put.
map-some :
    (c : ℕ) (r : Option (List ℕ)) (ts : List ℕ)
    → Option.map (◌∷◌ c) r ≡ some ts
    → (rest : List ℕ) × (r ≡ some rest) × (ts ≡ c ∷ rest)
map-some c none ts h = absurd (none-some ts h)
map-some c (some rest) ts h = (rest, refl, cc)

-- What the loop returns with some fuel, it returns with more.
pub suggest_loop_mono :
    (s : Search) (fuel more c room : ℕ) (ts : List ℕ)
    → fuel ≤ more
    → suggest_loop fuel s c room ≡ some ts
    → suggest_loop more s c room ≡ some ts
unfolding suggest_loop
suggest_loop_mono s zero more c room ts h e = absurd (none-some ts e)
suggest_loop_mono s (suc fuel) zero c room ts h e = absurd (omega arith)
suggest_loop_mono s (suc fuel) (suc more) c zero ts h e = e
suggest_loop_mono s (suc fuel) (suc more) c (suc room) ts h e =
    elim (Bool-cases (ltb s.span_end (c + s.booking))) [
      | inl late ↦
          let ends : some [] ≡ some ts = rw (late, suggest_loop) at e in
          rw (late, suggest_loop) ends
      | inr fits ↦ elim (Option-cases (conflict s c)) [
        | inl clear ↦
            let goes : Option.map (◌∷◌ c) (suggest_loop fuel s (c + s.step) room) ≡ some ts =
              rw (fits, clear, suggest_loop) at e in
            let (rest, found, is) = map-some c _ ts goes in
            rw (fits, clear, suggest_loop)
              (ap (Option.map (◌∷◌ c))
                  (suggest_loop_mono s fuel more (c + s.step) room rest (omega arith) found)
                ∙ ap some (sym is))
        | inr (o, found) ↦
            let goes : suggest_loop fuel s (ceil_on_grid s.step s.anchor o.end_at) (suc room)
                ≡ some ts =
              rw (fits, found, suggest_loop) at e in
            rw (fits, found, suggest_loop)
              (suggest_loop_mono s fuel more (ceil_on_grid s.step s.anchor o.end_at) (suc room) ts
                (omega arith) goes)
      ]
    ]

-- From a point of the grid, with a step that is positive and fuel for the milliseconds that are left,
-- the loop of suggestStartTimes returns a list, and the same list with any more fuel.
pub suggest_loop-ends :
    (s : Search) (fuel more c room : ℕ)
    → 0 < s.step
    → OnGrid s.step s.anchor c
    → 0 < fuel
    → s.span_end + 1 < c + fuel
    → fuel ≤ more
    → (ts : List ℕ) × (suggest_loop fuel s c room ≡ some ts)
      × (suggest_loop more s c room ≡ some ts)
suggest_loop-ends s fuel more c room positive grid some_fuel enough le =
    let found = suggest_loop-Finds s positive fuel c room grid some_fuel enough in
    elim (Option-cases (suggest_loop fuel s c room)) [
      | inl e ↦ absurd (rw e at found)
      | inr (ts, e) ↦ (ts, e, suggest_loop_mono s fuel more c room ts le e)
    ]
