-- ===== src/Chalet/SmartPricing/Winner.antt =====
-- Which rate rule of the owner sets the price, and when a daily window holds.
use mathlib.Core.List.{Memᴰ}
use tamam.Chalet.SmartPricing.{RateRule, LocalTime}
use tamam.Chalet.SmartPricing.Rules.{
  in_window, rule_applies, insert_by_priority, sort_by_priority, first_of, rate_of, ruled_by,
  apply_rate_rules, RuledRate,
}
use tamam.Prelude.{
  leb→le, ℕ, ◌+◌, ◌-◌, ◌%◌, ◌<◌, ◌≤◌, ltb, leb, refl, ap, ◌≡◌, ◌⊎◌, Bool, true, false, not, ◌||◌,
  List, [], ◌∷◌, none, some, inl, inr, Bool-cases, arith, if◌then◌else◌,
}
use tamam.Prelude.Int.{ℤ}
use tamam.Prelude.Lists.{filter, any, all}

-- A rule of the list that passes the test, and no rule that passes it has a higher priority.
pub record IsTop (p : RateRule → Bool) (rules : List RateRule) (top : RateRule) : Type 0 where
  pub member : Memᴰ top rules
  pub passes : p top ≡ true
  pub highest : all (λ r. not (p r) || leb r.priority top.priority) rules ≡ true

first-insert :
    (rule : RateRule) (sorted : List RateRule)
    → first_of (insert_by_priority rule sorted) ≡ elim (first_of sorted) [
      | none ↦ some rule
      | some top ↦ some (if leb top.priority rule.priority then rule else top)
    ]
unfolding insert_by_priority
first-insert rule [] = refl
first-insert rule (top ∷ rest) = elim (Bool-cases (leb top.priority rule.priority)) [
  | inl e ↦ rw e refl
  | inr e ↦ rw e refl
]

raise_all :
    (p : RateRule → Bool) (rules : List RateRule) (a b : ℕ)
    → a ≤ b
    → all (λ r. not (p r) || leb r.priority a) rules ≡ true
    → all (λ r. not (p r) || leb r.priority b) rules ≡ true
raise_all p [] a b h k = refl
raise_all p (r ∷ rest) a b h k = ground (arith, raise_all p rest a b h)

none_apply :
    (p : RateRule → Bool) (rules : List RateRule) (a : ℕ)
    → any p rules ≡ false
    → all (λ r. not (p r) || leb r.priority a) rules ≡ true
none_apply p [] a k = refl
none_apply p (r ∷ rest) a k = ground (arith, none_apply p rest a)

IsTop-skip :
    (p : RateRule → Bool) (r : RateRule) (rest : List RateRule) (top : RateRule)
    → IsTop p rest top
    → p r ≡ false
    → IsTop p (r ∷ rest) top
IsTop-skip p r rest top found e =
    let others = found.highest in
    record { member = Memᴰ.tail found.member; passes = found.passes; highest = rw e others }

IsTop-only :
    (p : RateRule → Bool) (r : RateRule) (rest : List RateRule)
    → p r ≡ true
    → any p rest ≡ false
    → IsTop p (r ∷ rest) r
IsTop-only p r rest e g =
    let others = none_apply p rest r.priority g in
    record { member = Memᴰ.head refl; passes = e; highest = ground arith }

-- A rule in front of the others that passes: it is the first, or the first of the others stays.
IsTop-cons :
    (p : RateRule → Bool) (r : RateRule) (rest : List RateRule) (top : RateRule)
    → IsTop p rest top
    → p r ≡ true
    → IsTop p (r ∷ rest) (if leb top.priority r.priority then r else top)
IsTop-cons p r rest top found e = elim (Bool-cases (leb top.priority r.priority)) [
  | inl up ↦ rw up (record {
    member = Memᴰ.head refl;
    passes = e;
    highest =
        first_passes p r rest r.priority
          (raise_all p rest top.priority r.priority (leb→le _ _ up) found.highest)
          (leb_refl r.priority);
  })
  | inr down ↦ rw down (record {
    member = Memᴰ.tail found.member;
    passes = found.passes;
    highest = first_passes p r rest top.priority found.highest (below _ _ down);
  })
]
  where
    leb_refl : (n : ℕ) → leb n n ≡ true
    leb_refl n = ground arith

    below : (a b : ℕ) → leb a b ≡ false → leb b a ≡ true
    below a b h = ground arith

    first_passes :
        (p : RateRule → Bool) (r : RateRule) (rest : List RateRule) (n : ℕ)
        → all (λ x. not (p x) || leb x.priority n) rest ≡ true
        → leb r.priority n ≡ true
        → all (λ x. not (p x) || leb x.priority n) (r ∷ rest) ≡ true
    first_passes p r rest n h k = ground arith

-- The first of the sorted rules.
first-sort :
    (p : RateRule → Bool) (rules : List RateRule)
    → ((first_of (sort_by_priority (filter p rules)) ≡ none) × (any p rules ≡ false))
      ⊎ ((top : RateRule) × (first_of (sort_by_priority (filter p rules)) ≡ some top)
          × IsTop p rules top)
unfolding sort_by_priority
first-sort p [] = inl (refl, refl)
first-sort p (r ∷ rest) = elim (Bool-cases (p r)) [
  | inr e ↦ elim (first-sort p rest) [
    | inl (f, g) ↦ rw e (inl (f, g))
    | inr (top, f, found) ↦ rw e (inr (top, f, IsTop-skip p r rest top found e))
  ]
  | inl e ↦ elim (first-sort p rest) [
    | inl (f, g) ↦
        rw (e, first-insert r (sort_by_priority (filter p rest)), f)
          (inr (r, refl, IsTop-only p r rest e g))
    | inr (top, f, found) ↦
        rw (e, first-insert r (sort_by_priority (filter p rest)), f)
          (inr (_, refl, IsTop-cons p r rest top found e))
  ]
]

-- Nothing applies and the base rate stays, or the rate is the one of a rule that applies and that no
-- rule that applies comes before.
abbrev pub Decides : ℤ → List RateRule → LocalTime → RuledRate → Type 0
Decides base rules now ruled =
    ((any (λ r. rule_applies r now) rules ≡ false)
      × (ruled ≡ record { rate_minor = base; rule = none }))
    ⊎ ((top : RateRule) × IsTop (λ r. rule_applies r now) rules top
        × (ruled ≡ record { rate_minor = rate_of base top; rule = some top }))

-- applyRateRules keeps the base rate exactly where no rule applies; otherwise it gives the rate of a
-- rule of the list that applies and whose priority no rule that applies exceeds.
pub apply_rate_rules-Decides :
    (base : ℤ) (rules : List RateRule) (now : LocalTime)
    → Decides base rules now (apply_rate_rules base rules now)
unfolding apply_rate_rules
apply_rate_rules-Decides base rules now = elim (first-sort (λ r. rule_applies r now) rules) [
  | inl (f, g) ↦ inl (g, ap (ruled_by base) f)
  | inr (top, f, found) ↦ inr (top, found, ap (ruled_by base) f)
]

-- For times of one day, the window of a rule, which may wrap past midnight, holds exactly at the
-- minutes that come after its start by less, around the clock, than its end does.
pub in_window_lem :
    (from to minute_of_day : ℕ)
    → from < 1440
    → to < 1440
    → minute_of_day < 1440
    → in_window from to minute_of_day
      ≡ ltb ((minute_of_day + 1440 - from) % 1440) ((to + 1440 - from) % 1440)
in_window_lem from to m f t h = ground arith
