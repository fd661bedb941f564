-- ===== src/Risk/Tests.antt =====
-- The findings of a concrete account.
use tamam.Prelude.{some}
use tamam.Risk.{RiskCounters, RiskThresholds, evaluate_risk_rules}
use tamam.Risk.Findings.{IsReport, evaluate_risk_rules-IsReport}

abbrev counters : RiskCounters
counters = record {
  cancellations_today = 6;
  failed_payments_today = 0;
  promo_redemptions_today = 12;
  max_observed_speed_kmh = some 200_000_000;
  accounts_on_device = 1;
  referrals_from_same_device = 0;
}

abbrev thresholds : RiskThresholds
thresholds = record {
  max_cancellations_per_day = 5;
  max_failed_payments_per_day = 5;
  max_promo_redemptions_per_day = 3;
  max_speed_kmh = 180_000_000;
}

evaluate_risk_rules-IsReport_example :
    IsReport counters thresholds (evaluate_risk_rules counters thresholds)
evaluate_risk_rules-IsReport_example = evaluate_risk_rules-IsReport counters thresholds
