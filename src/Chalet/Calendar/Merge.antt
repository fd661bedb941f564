-- ===== src/Chalet/Calendar/Merge.antt =====
-- `mergeIntervals` covers the same time with intervals that lie apart.
use tamam.Chalet.Calendar.{
  merge_intervals, merge_sorted, is_proper, merge_onto, Interval, insert_by_start, sort_by_start,
}
use tamam.Prelude.{
  leb→le, ◌∙◌, ap, inr, ltb, inl, if◌then◌else◌, ◌&&◌, Bool-cases, refl, ◌||◌, leb, arith, ◌≡◌, ◌≤◌,
  ◌<◌, Bool, ℕ, List, [], ◌∷◌, true, false,
}
use tamam.Prelude.Lists.{filter}

-- Whether an interval contains an instant, and whether one of a list does.
abbrev pub contains : ℕ → Interval → Bool
contains t i = leb i.start_at t && ltb t i.end_at

unfoldable pub covers : List Interval → ℕ → Bool
covers [] t = false
covers (i ∷ is) t = contains t i || covers is t

covers-proper : (is : List Interval) (t : ℕ) → covers (filter is_proper is) t ≡ covers is t
unfolding covers
covers-proper [] t = refl
covers-proper (i ∷ is) t = ground (arith, covers-proper is t)

covers-insert :
    (i : Interval) (is : List Interval) (t : ℕ)
    → covers (insert_by_start i is) t ≡ (contains t i || covers is t)
unfolding covers insert_by_start
covers-insert i [] t = refl
covers-insert i (j ∷ is) t = ground (arith, covers-insert i is t)

covers-sort : (is : List Interval) (t : ℕ) → covers (sort_by_start is) t ≡ covers is t
unfolding covers sort_by_start
covers-sort [] t = refl
covers-sort (i ∷ is) t = ground (arith, covers-insert i (sort_by_start is) t, covers-sort is t)

-- Intervals in the order of their starts, none before `b`.
abbrev SortedFrom : ℕ → List Interval → Type 0
SortedFrom b [] = Unit
SortedFrom b (i ∷ is) = (b ≤ i.start_at) × (i.start_at < i.end_at) × SortedFrom i.start_at is

-- Intervals in order with time between any two, all after `b`.
abbrev pub ApartFrom : ℕ → List Interval → Type 0
ApartFrom b [] = Unit
ApartFrom b (i ∷ is) = (b < i.start_at) × (i.start_at < i.end_at) × ApartFrom i.end_at is

abbrev pub IsApart : List Interval → Type 0
IsApart [] = Unit
IsApart (i ∷ is) = (i.start_at < i.end_at) × ApartFrom i.end_at is

pub ApartFrom-IsApart : (b : ℕ) (is : List Interval) → ApartFrom b is → IsApart is
ApartFrom-IsApart b [] h = tt
ApartFrom-IsApart b (i ∷ is) h = (h.1, h.2)

insert-SortedFrom :
    (b : ℕ) (i : Interval) (is : List Interval)
    → b ≤ i.start_at
    → i.start_at < i.end_at
    → SortedFrom b is
    → SortedFrom b (insert_by_start i is)
unfolding insert_by_start
insert-SortedFrom b i [] h p s = (h, p, tt)
insert-SortedFrom b i (j ∷ is) h p s = ground (arith, insert-SortedFrom j.start_at i is)

sort-SortedFrom : (is : List Interval) → SortedFrom 0 (sort_by_start (filter is_proper is))
unfolding sort_by_start
sort-SortedFrom [] = tt
sort-SortedFrom (i ∷ is) = elim (Bool-cases (is_proper i)) [
  | inl p ↦ rw p (
      insert-SortedFrom 0 i (sort_by_start (filter is_proper is)) (omega arith) (ground arith)
        (sort-SortedFrom is))
  | inr n ↦ rw n (sort-SortedFrom is)
]

SortedFrom-le : (b c : ℕ) (is : List Interval) → b ≤ c → SortedFrom c is → SortedFrom b is
SortedFrom-le b c [] h s = tt
SortedFrom-le b c (i ∷ is) h s = (omega arith, s.1, s.2)

-- The interval that the loop extends.
abbrev extend : Interval → Interval → Interval
extend i j = if ltb i.end_at j.end_at then record i { end_at = j.end_at } else i

extend-start : (i j : Interval) → (extend i j).start_at ≡ i.start_at
extend-start i j = ground arith

extend-end : (i j : Interval) → (i.end_at ≤ (extend i j).end_at) × (j.end_at ≤ (extend i j).end_at)
extend-end i j = ground arith

contains-extend :
    (t : ℕ) (i j : Interval)
    → i.start_at ≤ j.start_at
    → j.start_at ≤ i.end_at
    → i.start_at < i.end_at
    → contains t (extend i j) ≡ (contains t i || contains t j)
contains-extend t i j h k p = ground arith

merge_onto-touching :
    (i j : Interval) (is : List Interval)
    → leb j.start_at i.end_at ≡ true
    → merge_onto i (j ∷ is) ≡ merge_onto (extend i j) is
unfolding merge_onto
merge_onto-touching i j is e = rw (e, merge_onto)

merge_onto-apart :
    (i j : Interval) (is : List Interval)
    → leb j.start_at i.end_at ≡ false
    → merge_onto i (j ∷ is) ≡ i ∷ merge_onto j is
unfolding merge_onto
merge_onto-apart i j is e = rw (e, merge_onto)

sorted-extend :
    (i j : Interval) (is : List Interval)
    → SortedFrom i.start_at (j ∷ is)
    → SortedFrom (extend i j).start_at is
sorted-extend i j is s = SortedFrom-le _ j.start_at is (rw (extend-start i j) s.0) s.2

proper-extend :
    (i j : Interval) → i.start_at < i.end_at → (extend i j).start_at < (extend i j).end_at
proper-extend i j p = ground arith

or_regroup : (a b c d : Bool) → d ≡ (a || b) → (d || c) ≡ (a || (b || c))
or_regroup a b c d h = ground arith

covers-merge_onto :
    (i : Interval) (is : List Interval) (t : ℕ)
    → i.start_at < i.end_at
    → SortedFrom i.start_at is
    → covers (merge_onto i is) t ≡ (contains t i || covers is t)
unfolding covers merge_onto
covers-merge_onto i [] t p s = refl
covers-merge_onto i (j ∷ is) t p s = elim (Bool-cases (leb j.start_at i.end_at)) [
  | inl e ↦
      ap (λ l. covers l t) (merge_onto-touching i j is e)
      ∙ covers-merge_onto (extend i j) is t (proper-extend i j p) (sorted-extend i j is s)
      ∙ or_regroup _ _ _ _ (contains-extend t i j s.0 (leb→le _ _ e) p)
  | inr e ↦
      ap (λ l. covers l t) (merge_onto-apart i j is e)
      ∙ ap (λ c. contains t i || c) (covers-merge_onto j is t s.1 s.2)
]

merge_onto-ApartFrom :
    (b : ℕ) (i : Interval) (is : List Interval)
    → b < i.start_at
    → i.start_at < i.end_at
    → SortedFrom i.start_at is
    → ApartFrom b (merge_onto i is)
unfolding merge_onto
merge_onto-ApartFrom b i [] h p s = (h, p, tt)
merge_onto-ApartFrom b i (j ∷ is) h p s = elim (Bool-cases (leb j.start_at i.end_at)) [
  | inl e ↦ rw (merge_onto-touching i j is e) (
      merge_onto-ApartFrom b (extend i j) is (rw (extend-start i j) h) (proper-extend i j p)
        (sorted-extend i j is s))
  | inr e ↦
      rw (merge_onto-apart i j is e)
        (h, p, merge_onto-ApartFrom i.end_at j is (ground arith) s.1 s.2)
]

merge_onto-IsApart :
    (i : Interval) (is : List Interval)
    → i.start_at < i.end_at
    → SortedFrom i.start_at is
    → IsApart (merge_onto i is)
unfolding merge_onto
merge_onto-IsApart i [] p s = (p, tt)
merge_onto-IsApart i (j ∷ is) p s = elim (Bool-cases (leb j.start_at i.end_at)) [
  | inl e ↦
      rw (merge_onto-touching i j is e)
        (merge_onto-IsApart (extend i j) is (proper-extend i j p) (sorted-extend i j is s))
  | inr e ↦
      rw (merge_onto-apart i j is e) (p, merge_onto-ApartFrom i.end_at j is (ground arith) s.1 s.2)
]

merge_sorted_lem :
    (is : List Interval)
    → SortedFrom 0 is
    → IsApart (merge_sorted is) × ((t : ℕ) → covers (merge_sorted is) t ≡ covers is t)
unfolding merge_sorted covers
merge_sorted_lem [] s = (tt, λ t. refl)
merge_sorted_lem (i ∷ is) s =
    (merge_onto-IsApart i is s.1 s.2, λ t. covers-merge_onto i is t s.1 s.2)

-- Merging changes no instant's being occupied, and what it returns are proper intervals in the
-- order of time, each beginning strictly after the one before it ended.
pub merge_intervals_lem :
    (is : List Interval)
    → IsApart (merge_intervals is) × ((t : ℕ) → covers (merge_intervals is) t ≡ covers is t)
unfolding merge_intervals
merge_intervals_lem is =
    let (apart, same) = merge_sorted_lem _ (sort-SortedFrom is) in
    (apart, λ t. same t ∙ covers-sort (filter is_proper is) t ∙ covers-proper is t)
