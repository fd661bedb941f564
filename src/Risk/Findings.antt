-- ===== src/Risk/Findings.antt =====
-- What the findings of the risk rules are.
use tamam.Prelude.{
  ◌⊎◌, ℕ, ◌≤◌, ◌*◌, ◌+◌, ◌/◌, Option, none, some, ◌≡◌, refl, ap, ◌∙◌, Bool, false, ◌||◌, ◌&&◌, List,
  [], ◌∷◌, ltb, leb, ◌==◌, inl, inr, Bool-cases, arith,
}
use tamam.Prelude.Data.{◌===◌}
use tamam.Prelude.Lists.{any, All}
use tamam.Risk.{
  RiskCounters, RiskThresholds, RiskFinding, ratio_score, within_scores, RiskRule, risk_rules,
  fired, exceeds, insert_by_score, sort_by_score, evaluate_risk_rules,
  multiple_accounts_device_threshold, unusual_referral_threshold, speed_score,
}
use tamam.Shared.Enums.{
  RiskSignal, risk_signal_eq, excessive_cancellations, promo_abuse, multiple_accounts,
  impossible_gps_movement, repeated_failed_payments, unusual_referral_behaviour,
}

-- When the rule of a signal holds.
abbrev pub holds : RiskCounters → RiskThresholds → RiskSignal → Bool
holds c t excessive_cancellations = ltb t.max_cancellations_per_day c.cancellations_today
holds c t repeated_failed_payments = ltb t.max_failed_payments_per_day c.failed_payments_today
holds c t promo_abuse = ltb t.max_promo_redemptions_per_day c.promo_redemptions_today
holds c t impossible_gps_movement = exceeds c.max_observed_speed_kmh t.max_speed_kmh
holds c t multiple_accounts = leb multiple_accounts_device_threshold c.accounts_on_device
holds c t unusual_referral_behaviour = leb unusual_referral_threshold c.referrals_from_same_device

-- The scores of a list that goes down.
abbrev pub IsSorted : List RiskFinding → Type 0
IsSorted [] = Unit
IsSorted (f ∷ rest) = All (λ g. g.score ≤ f.score) rest × IsSorted rest

-- A finding between "just over the line" and "far past it".
abbrev pub IsScored : RiskFinding → Type 0
IsScored f = (50 ≤ f.score) × (f.score ≤ 100)

ratio_score-IsScored :
    (signal : RiskSignal) (value threshold : ℕ)
    → IsScored (record { signal = signal; score = ratio_score value threshold })
unfolding ratio_score
ratio_score-IsScored signal value threshold = elim (Bool-cases (threshold == 0)) [
  | inl e ↦ rw e (omega arith, omega arith)
  | inr e ↦ rw e (bounded ((2 * value * 50 + threshold) / (2 * threshold)))
]
  where
    bounded : (n : ℕ) → (50 ≤ within_scores n) × (within_scores n ≤ 100)
    bounded n = ground arith

-- What each insertion keeps.
any-insert :
    (p : RiskFinding → Bool) (f : RiskFinding) (xs : List RiskFinding)
    → any p (insert_by_score f xs) ≡ (p f || any p xs)
unfolding insert_by_score
any-insert p f [] = refl
any-insert p f (g ∷ xs) = ground (arith, any-insert p f xs)

any-sort : (p : RiskFinding → Bool) (xs : List RiskFinding) → any p (sort_by_score xs) ≡ any p xs
unfolding sort_by_score
any-sort p [] = refl
any-sort p (f ∷ xs) = any-insert p f (sort_by_score xs) ∙ ap (λ x. p f || x) (any-sort p xs)

module _ (P : RiskFinding → Type 0) where
  All-insert :
      (f : RiskFinding) (xs : List RiskFinding) → P f → All P xs → All P (insert_by_score f xs)
  unfolding insert_by_score
  All-insert f [] h k = (h, k)
  All-insert f (g ∷ xs) h (k, l) = elim (Bool-cases (leb g.score f.score)) [
    | inl e ↦ rw e (h, (k, l))
    | inr e ↦ rw e (k, All-insert f xs h l)
  ]

  All-sort : (xs : List RiskFinding) → All P xs → All P (sort_by_score xs)
  unfolding sort_by_score
  All-sort [] h = tt
  All-sort (f ∷ xs) (h, k) = All-insert f (sort_by_score xs) h (All-sort xs k)

lower :
    (a b : ℕ) (xs : List RiskFinding)
    → a ≤ b
    → All (λ g. g.score ≤ a) xs
    → All (λ g. g.score ≤ b) xs
lower a b [] h k = tt
lower a b (g ∷ xs) h (k, l) = (omega arith, lower a b xs h l)

insert-IsSorted :
    (f : RiskFinding) (xs : List RiskFinding) → IsSorted xs → IsSorted (insert_by_score f xs)
unfolding insert_by_score
insert-IsSorted f [] h = (tt, tt)
insert-IsSorted f (g ∷ xs) (h, k) = elim (Bool-cases (leb g.score f.score)) [
  | inl e ↦ let low : g.score ≤ f.score = ground arith in rw e ((low, lower _ _ xs low h), (h, k))
  | inr e ↦
      let high : f.score ≤ g.score = ground arith in
      rw e (All-insert (λ x. x.score ≤ g.score) f xs high h, insert-IsSorted f xs k)
]

sort-IsSorted : (xs : List RiskFinding) → IsSorted (sort_by_score xs)
unfolding sort_by_score
sort-IsSorted [] = tt
sort-IsSorted (f ∷ xs) = insert-IsSorted f (sort_by_score xs) (sort-IsSorted xs)

any-fired :
    (p : RiskFinding → Bool) (rules : List RiskRule)
    → any p (fired rules) ≡ any (λ r. r.fires && p r.finding) rules
unfolding fired
any-fired p [] = refl
any-fired p (r ∷ rules) = ground (arith, any-fired p rules)

fired-AllScored :
    (rules : List RiskRule)
    → All (λ r. (r.fires ≡ false) ⊎ IsScored r.finding) rules
    → All IsScored (fired rules)
unfolding fired
fired-AllScored [] h = tt
fired-AllScored (r ∷ rules) (h, k) = elim (Bool-cases r.fires) [
  | inr e ↦ rw e (fired-AllScored rules k)
  | inl e ↦ elim h [ inl off ↦ cc | inr good ↦ rw e (good, fired-AllScored rules k) ]
]

speed-IsScored :
    (speed : Option ℕ) (most : ℕ)
    → (exceeds speed most ≡ false)
      ⊎ IsScored (record { signal = impossible_gps_movement; score = speed_score speed most })
speed-IsScored none most = inl refl
speed-IsScored (some speed) most = inr (ratio_score-IsScored impossible_gps_movement speed most)

rules-AllScored :
    (c : RiskCounters) (t : RiskThresholds)
    → All (λ r. (r.fires ≡ false) ⊎ IsScored r.finding) (risk_rules c t)
unfolding risk_rules
rules-AllScored c t = (
  inr (
      ratio_score-IsScored excessive_cancellations c.cancellations_today
        t.max_cancellations_per_day),
  (
    inr (
        ratio_score-IsScored repeated_failed_payments c.failed_payments_today
          t.max_failed_payments_per_day),
    (
      inr (
          ratio_score-IsScored promo_abuse c.promo_redemptions_today
            t.max_promo_redemptions_per_day),
      (
        speed-IsScored c.max_observed_speed_kmh t.max_speed_kmh,
        (
          inr (
              ratio_score-IsScored multiple_accounts c.accounts_on_device
                multiple_accounts_device_threshold),
          (
            inr (
                ratio_score-IsScored unusual_referral_behaviour c.referrals_from_same_device
                  unusual_referral_threshold),
            tt,
          ),
        ),
      ),
    ),
  ),
)

rules-exact :
    (c : RiskCounters) (t : RiskThresholds) (s : RiskSignal)
    → any (λ r. r.fires && (r.finding.signal === s)) (risk_rules c t) ≡ holds c t s
unfolding risk_rules
rules-exact c t excessive_cancellations = ground arith
rules-exact c t repeated_failed_payments = ground arith
rules-exact c t promo_abuse = ground arith
rules-exact c t impossible_gps_movement = ground arith
rules-exact c t multiple_accounts = ground arith
rules-exact c t unusual_referral_behaviour = ground arith

-- The findings of an account: in order, scored, and one for exactly the signals whose rules hold.
pub record IsReport (c : RiskCounters) (t : RiskThresholds) (report : List RiskFinding)
    : Type 0 where
  pub sorted : IsSorted report
  pub scored : All IsScored report
  pub exact : (s : RiskSignal) → any (λ f. f.signal === s) report ≡ holds c t s

-- evaluateRiskRules reports, highest score first and with scores from 50 to 100, exactly the signals
-- whose conditions hold.
pub evaluate_risk_rules-IsReport :
    (c : RiskCounters) (t : RiskThresholds) → IsReport c t (evaluate_risk_rules c t)
unfolding evaluate_risk_rules
evaluate_risk_rules-IsReport c t = record {
  sorted = sort-IsSorted (fired (risk_rules c t));
  scored =
      All-sort IsScored (fired (risk_rules c t))
        (fired-AllScored (risk_rules c t) (rules-AllScored c t));
  exact = λ s.
      any-sort (λ f. f.signal === s) (fired (risk_rules c t))
      ∙ any-fired (λ f. f.signal === s) (risk_rules c t)
      ∙ rules-exact c t s;
}
