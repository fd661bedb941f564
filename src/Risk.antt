-- ===== src/Risk.antt =====
-- apps/api/src/modules/risk/domain/risk.rules.ts: the abuse signals of an account. The details of a
-- finding are not modelled. A score is the exact rounding of its quotient, not that of a double; a
-- speed is in millionths of a km/h.
pub mod Findings
mod Tests
use tamam.Money.{Decimal, one}
use tamam.Prelude.{
  ℕ, ◌+◌, ◌*◌, ◌/◌, ◌==◌, ltb, leb, Bool, false, List, [], ◌∷◌, Option, none, some, if◌then◌else◌,
}
use tamam.Shared.Enums.{
  RiskSignal, excessive_cancellations, promo_abuse, multiple_accounts, impossible_gps_movement,
  repeated_failed_payments, unusual_referral_behaviour,
}

-- `MULTIPLE_ACCOUNTS_DEVICE_THRESHOLD`
abbrev pub multiple_accounts_device_threshold : ℕ
multiple_accounts_device_threshold = 3

-- `UNUSUAL_REFERRAL_THRESHOLD`
abbrev pub unusual_referral_threshold : ℕ
unusual_referral_threshold = 5

abbrev pub min_score : ℕ
min_score = 50

abbrev pub max_score : ℕ
max_score = 100

pub record RiskThresholds : Type 0 where
  pub max_cancellations_per_day : ℕ
  pub max_failed_payments_per_day : ℕ
  pub max_promo_redemptions_per_day : ℕ
  pub max_speed_kmh : Decimal

pub record RiskCounters : Type 0 where
  pub cancellations_today : ℕ
  pub failed_payments_today : ℕ
  pub promo_redemptions_today : ℕ
  pub max_observed_speed_kmh : Option Decimal
  pub accounts_on_device : ℕ
  pub referrals_from_same_device : ℕ

pub record RiskFinding : Type 0 where
  pub signal : RiskSignal
  pub score : ℕ

-- `Math.min(MAX_SCORE, Math.max(MIN_SCORE, scaled))`
abbrev pub within_scores : ℕ → ℕ
within_scores scaled =
    if ltb max_score scaled then max_score else if ltb scaled min_score then min_score else scaled

-- `ratioScore`: the quotient times 50, rounded.
unfoldable pub ratio_score : ℕ → ℕ → ℕ
ratio_score value threshold =
    if threshold == 0
    then max_score
    else within_scores ((2 * value * min_score + threshold) / (2 * threshold))

-- A rule: its condition, and its finding.
pub record RiskRule : Type 0 where
  pub fires : Bool
  pub finding : RiskFinding

abbrev rule_of : RiskSignal → Bool → ℕ → RiskRule
rule_of signal fires score = record {
  fires = fires;
  finding = record { signal = signal; score = score };
}

abbrev pub exceeds : Option Decimal → Decimal → Bool
exceeds none most = false
exceeds (some speed) most = ltb most speed

-- The score of a speed that is known.
abbrev pub speed_score : Option Decimal → Decimal → ℕ
speed_score none most = 0
speed_score (some speed) most = ratio_score speed most

-- The rules of `evaluateRiskRules`, in their order.
unfoldable pub risk_rules : RiskCounters → RiskThresholds → List RiskRule
unfolding ratio_score
risk_rules counters thresholds =
    rule_of excessive_cancellations
      (ltb thresholds.max_cancellations_per_day counters.cancellations_today)
      (ratio_score counters.cancellations_today thresholds.max_cancellations_per_day)
    ∷ rule_of repeated_failed_payments
        (ltb thresholds.max_failed_payments_per_day counters.failed_payments_today)
        (ratio_score counters.failed_payments_today thresholds.max_failed_payments_per_day)
    ∷ rule_of promo_abuse
        (ltb thresholds.max_promo_redemptions_per_day counters.promo_redemptions_today)
        (ratio_score counters.promo_redemptions_today thresholds.max_promo_redemptions_per_day)
    ∷ rule_of impossible_gps_movement
        (exceeds counters.max_observed_speed_kmh thresholds.max_speed_kmh)
        (speed_score counters.max_observed_speed_kmh thresholds.max_speed_kmh)
    ∷ rule_of multiple_accounts (leb multiple_accounts_device_threshold counters.accounts_on_device)
        (ratio_score counters.accounts_on_device multiple_accounts_device_threshold)
    ∷ rule_of unusual_referral_behaviour
        (leb unusual_referral_threshold counters.referrals_from_same_device)
        (ratio_score counters.referrals_from_same_device unusual_referral_threshold)
    ∷ []

-- What the rules that fire push.
unfoldable pub fired : List RiskRule → List RiskFinding
fired [] = []
fired (r ∷ rest) = let later = fired rest in if r.fires then r.finding ∷ later else later

-- `sort((a, b) => b.score - a.score)`: stable.
unfoldable pub insert_by_score : RiskFinding → List RiskFinding → List RiskFinding
insert_by_score f [] = f ∷ []
insert_by_score f (g ∷ rest) =
    let later = insert_by_score f rest in if leb g.score f.score then f ∷ g ∷ rest else g ∷ later

unfoldable pub sort_by_score : List RiskFinding → List RiskFinding
unfolding insert_by_score
sort_by_score [] = []
sort_by_score (f ∷ rest) = insert_by_score f (sort_by_score rest)

-- `evaluateRiskRules`
unfoldable pub evaluate_risk_rules : RiskCounters → RiskThresholds → List RiskFinding
unfolding fired risk_rules sort_by_score
evaluate_risk_rules counters thresholds = sort_by_score (fired (risk_rules counters thresholds))
