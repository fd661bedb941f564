-- ===== src/Chalet/Calendar/Free.antt =====
-- `freeWindows` returns exactly the time of the day that nothing occupies.
use native.Mathlib.Decide.{dec_lt}
use tamam.Chalet.Calendar.{
  merge_intervals, overlaps, free_windows, make_window, Interval, free_loop, FreeWindow,
}
use tamam.Chalet.Calendar.Merge.{
  merge_intervals_lem, ApartFrom-IsApart, ApartFrom, IsApart, contains, covers,
}
use tamam.Prelude.{
  lt→ltb, le→leb, ◌<◌, ap, ◌∙◌, inr, inl, if◌then◌else◌, Bool-cases, not, refl, ltb, ◌+◌, ◌≡◌, ◌||◌,
  ◌&&◌, arith, ◌≤◌, leb, Bool, ℕ, List, [], ◌∷◌, true, false,
}
use tamam.Prelude.Lists.{filter}

-- Whether one of the windows contains an instant.
abbrev pub open_at : List FreeWindow → ℕ → Bool
open_at [] t = false
open_at (w ∷ ws) t = contains t w.window || open_at ws t

-- Intervals that all start after `b` do not cover what is before.
covers-before : (b : ℕ) (is : List Interval) (t : ℕ) → ApartFrom b is → t ≤ b → covers is t ≡ false
unfolding covers
covers-before b [] t h le = refl
covers-before b (i ∷ is) t h le = ground (arith, covers-before i.end_at is t h.2 (omega arith))

pub ApartFrom-le : (b c : ℕ) (is : List Interval) → b ≤ c → ApartFrom c is → ApartFrom b is
ApartFrom-le b c [] h s = tt
ApartFrom-le b c (i ∷ is) h s = (omega arith, s.1, s.2)

-- The time that is left from the cursor on: inside the day and not occupied.
abbrev left : ℕ → ℕ → List Interval → ℕ → Bool
left span_end cursor occupied t = leb cursor t && (ltb t span_end && not (covers occupied t))

-- A window pushed if it is not empty.
open_at-push :
    (start end : ℕ) (before after : Bool) (later : List FreeWindow) (t : ℕ)
    → open_at (if ltb start end then make_window start end before after ∷ later else later) t
      ≡ (leb start t && ltb t end || open_at later t)
unfolding make_window
open_at-push start end before after later t = elim (Bool-cases (ltb start end)) [
  | inl e ↦ rw e
  | inr e ↦ rw e (ground arith)
]

-- One occupied interval [s, e) before others that start after `e`: the time left from `c` on is
-- the window before it and what is left from its end on.
step_before :
    (c s e last t : ℕ) (r : Bool)
    → t < s
    → s < e
    → r ≡ false
    → (leb c t && ltb t (if ltb s last then s else last)
        || (leb (if ltb c e then e else c) t && (ltb t last && not r)))
      ≡ (leb c t && (ltb t last && not (leb s t && ltb t e || r)))
step_before c s e last t r h p z = rw z (ground arith)

step_inside :
    (c s e last t : ℕ) (r : Bool)
    → s ≤ t
    → t < e
    → (leb c t && ltb t (if ltb s last then s else last)
        || (leb (if ltb c e then e else c) t && (ltb t last && not r)))
      ≡ (leb c t && (ltb t last && not (leb s t && ltb t e || r)))
step_inside c s e last t r h p = rw (le→leb s t h, lt→ltb t e p) (ground arith)

step_after :
    (c s e last t : ℕ) (r : Bool)
    → s < e
    → e ≤ t
    → (leb c t && ltb t (if ltb s last then s else last)
        || (leb (if ltb c e then e else c) t && (ltb t last && not r)))
      ≡ (leb c t && (ltb t last && not (leb s t && ltb t e || r)))
step_after c s e last t true p h = ground arith
step_after c s e last t false p h = ground arith

step_left :
    (c s e last t : ℕ) (r : Bool)
    → s < e
    → (t ≤ e → r ≡ false)
    → (leb c t && ltb t (if ltb s last then s else last)
        || (leb (if ltb c e then e else c) t && (ltb t last && not r)))
      ≡ (leb c t && (ltb t last && not (leb s t && ltb t e || r)))
step_left c s e last t r p h = elim (dec_lt t s) [
  | yes b ↦ step_before c s e last t r b p (h (omega arith))
  | no nb ↦ elim (dec_lt t e) [
    | yes b ↦ step_inside c s e last t r (omega arith) b
    | no nb' ↦ step_after c s e last t r p (omega arith)
  ]
]

free_loop-open_at :
    (span_end index cursor : ℕ) (is : List Interval) (t : ℕ)
    → IsApart is
    → open_at (free_loop span_end index cursor is) t ≡ left span_end cursor is t
unfolding free_loop covers
free_loop-open_at span_end index cursor [] t h =
    open_at-push cursor span_end (ltb 0 index) false [] t ∙ ground arith
free_loop-open_at span_end index cursor (i ∷ is) t h =
    let next = if ltb cursor i.end_at then i.end_at else cursor in
    open_at-push cursor (if ltb i.start_at span_end then i.start_at else span_end) (ltb 0 index)
      true (free_loop span_end (index + 1) next is) t
    ∙ ap
        (λ b. leb cursor t && ltb t (if ltb i.start_at span_end then i.start_at else span_end) || b)
        (free_loop-open_at span_end (index + 1) next is t (ApartFrom-IsApart i.end_at is h.1))
    ∙ step_left cursor i.start_at i.end_at span_end t (covers is t) h.0
        (covers-before i.end_at is t h.1)

-- An interval that does not overlap the day covers no instant of it.
covers-overlapping :
    (span : Interval) (is : List Interval) (t : ℕ)
    → contains t span ≡ true
    → covers (filter (λ o. overlaps o span) is) t ≡ covers is t
unfolding covers
covers-overlapping span [] t h = refl
covers-overlapping span (i ∷ is) t h = ground (arith, covers-overlapping span is t h)

filter-ApartFrom :
    (p : Interval → Bool) (b : ℕ) (is : List Interval) → ApartFrom b is → ApartFrom b (filter p is)
filter-ApartFrom p b [] h = tt
filter-ApartFrom p b (i ∷ is) h = elim (Bool-cases (p i)) [
  | inl e ↦ rw e (h.0, h.1, filter-ApartFrom p i.end_at is h.2)
  | inr e ↦ rw e (filter-ApartFrom p b is (ApartFrom-le b i.end_at is (omega arith) h.2))
]

filter-IsApart : (p : Interval → Bool) (is : List Interval) → IsApart is → IsApart (filter p is)
filter-IsApart p [] h = tt
filter-IsApart p (i ∷ is) h = elim (Bool-cases (p i)) [
  | inl e ↦ rw e (h.0, filter-ApartFrom p i.end_at is h.1)
  | inr e ↦ rw e (ApartFrom-IsApart i.end_at (filter p is) (filter-ApartFrom p i.end_at is h.1))
]

same_left :
    (span : Interval) (a b : Bool) (t : ℕ)
    → (contains t span ≡ true → a ≡ b)
    → (leb span.start_at t && (ltb t span.end_at && not a)) ≡ (contains t span && not b)
same_left span a b t h = elim (Bool-cases (contains t span)) [
  | inl e ↦ rw (h e) (ground arith)
  | inr e ↦ ground arith
]

-- An instant lies in one of the free windows exactly if it lies inside the day and in none of the
-- occupancies, whatever their order and however they overlap.
pub free_windows-open_at :
    (span : Interval) (occupancies : List Interval) (t : ℕ)
    → open_at (free_windows span occupancies) t ≡ (contains t span && not (covers occupancies t))
unfolding free_windows
free_windows-open_at span occupancies t =
    let (apart, same) = merge_intervals_lem occupancies in
    let blocking = filter (λ o. overlaps o span) (merge_intervals occupancies) in
    free_loop-open_at span.end_at 0 span.start_at blocking t
      (filter-IsApart (λ o. overlaps o span) _ apart)
    ∙ same_left span (covers blocking t) (covers occupancies t) t
        (λ h. covers-overlapping span (merge_intervals occupancies) t h ∙ same t)
