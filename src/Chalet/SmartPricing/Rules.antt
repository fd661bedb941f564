-- ===== src/Chalet/SmartPricing/Rules.antt =====
-- apps/api/src/modules/chalet/domain/smart-pricing.ts: the owner's own rate rules.
use tamam.Chalet.SmartPricing.{
  RateRule, ClockTime, LocalTime, time_of_day, day_of_week, special_date,
}
use tamam.Money.{multiply}
use tamam.Prelude.{
  ℕ, ◌+◌, ◌*◌, ◌==◌, ltb, leb, Bool, false, ◌&&◌, ◌||◌, List, [], ◌∷◌, Option, none, some,
  if◌then◌else◌,
}
use tamam.Prelude.Int.{ℤ}
use tamam.Prelude.Lists.{filter}

-- `hhmmToMinutes`
abbrev pub hhmm_to_minutes : ClockTime → ℕ
hhmm_to_minutes value = value.hour * 60 + value.minute

-- A window of the day, which may wrap past midnight.
abbrev pub in_window : ℕ → ℕ → ℕ → Bool
in_window from to minute_of_day =
    if leb from to
    then leb from minute_of_day && ltb minute_of_day to
    else leb from minute_of_day || ltb minute_of_day to

-- The branch of DAY_OF_WEEK.
abbrev pub on_day : Option ℕ → ℕ → Bool
on_day none today = false
on_day (some day) today = day == today

-- The branch of SPECIAL_DATE: the last date is the first one when it is missing.
abbrev pub on_date : Option ℕ → Option ℕ → ℕ → Bool
on_date none last date = false
on_date (some from) none date = leb from date && leb date from
on_date (some from) (some to) date = leb from date && leb date to

-- The branch of TIME_OF_DAY.
abbrev pub at_time : Option ClockTime → Option ClockTime → ℕ → Bool
at_time (some from) (some to) minute_of_day =
    in_window (hhmm_to_minutes from) (hhmm_to_minutes to) minute_of_day
at_time (some from) none minute_of_day = false
at_time none end minute_of_day = false

-- `ruleApplies`
unfoldable pub rule_applies : RateRule → LocalTime → Bool
rule_applies rule now = elim rule.kind [
  | day_of_week ↦ on_day rule.weekday now.day_of_week
  | special_date ↦ on_date rule.start_date rule.end_date now.date
  | time_of_day ↦ at_time rule.start_time rule.end_time now.minute_of_day
]

-- `sort((a, b) => b.priority - a.priority)`: stable.
unfoldable pub insert_by_priority : RateRule → List RateRule → List RateRule
insert_by_priority rule [] = rule ∷ []
insert_by_priority rule (other ∷ rest) =
    if leb other.priority rule.priority
    then rule ∷ other ∷ rest
    else other ∷ insert_by_priority rule rest

unfoldable pub sort_by_priority : List RateRule → List RateRule
unfolding insert_by_priority
sort_by_priority [] = []
sort_by_priority (rule ∷ rest) = insert_by_priority rule (sort_by_priority rest)

-- `[0]`
abbrev pub first_of : List RateRule → Option RateRule
first_of [] = none
first_of (rule ∷ rest) = some rule

pub record RuledRate : Type 0 where
  pub rate_minor : ℤ
  pub rule : Option RateRule

-- The rate that a rule asks for: its own, or a multiple of the base.
abbrev pub rate_of : ℤ → RateRule → ℤ
rate_of base winner = elim winner.hourly_rate_minor [
  | some rate ↦ rate
  | none ↦ elim winner.multiplier [ some times ↦ multiply base times | none ↦ base ]
]

-- The rate that the winner gives, if there is one.
abbrev pub ruled_by : ℤ → Option RateRule → RuledRate
ruled_by base none = record { rate_minor = base; rule = none }
ruled_by base (some winner) = record { rate_minor = rate_of base winner; rule = some winner }

-- `applyRateRules`
unfoldable pub apply_rate_rules : ℤ → List RateRule → LocalTime → RuledRate
unfolding rule_applies sort_by_priority
apply_rate_rules base rules now =
    ruled_by base (first_of (sort_by_priority (filter (λ r. rule_applies r now) rules)))
