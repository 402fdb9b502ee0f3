-- ===== src/Tests/Schedule.antt =====
-- Instances of the theorems at concrete inputs: the times of updates in control/src/ruleset.
use dae_rs.Prelude.{ℕ, ◌<◌, ◌%◌, ◌^◌, ◌*◌, ◌≡◌, refl, some, none, false, List, [], ◌∷◌, arith}
use dae_rs.Text.{Text, text, trim, is_empty}
use dae_rs.Text.Numbers.{from_str_radix}
use dae_rs.Ruleset.Schedule.{
  ok, parse_period, unit_secs, Entry, period_of, last_success_of, process_entry, next_period_point,
}
use dae_rs.Ruleset.Schedule.Periods.{Part, parse_period-IsMinutes, parse_period-period_text}
use dae_rs.Ruleset.Schedule.Points.{FollowsPeriod, process_entry-period}

parse_period-IsMinutes_example : (0 < 10920) × (10920 % 60 ≡ 0) × (10920 < 2 ^ 64)
unfolding parse_period
parse_period-IsMinutes_example = parse_period-IsMinutes (text "3h2m") 10920 refl

abbrev parts : List Part
parts =
    record { digits = text "3"; unit = b'h'; num = 3; secs = 3600 }
    ∷ record { digits = text "02"; unit = b'm'; num = 2; secs = 60 }
    ∷ []

parse_period-period_text_example : parse_period (text " 3h02m") ≡ ok 10920
unfolding trim is_empty from_str_radix unit_secs
parse_period-period_text_example =
    parse_period-period_text (text " 3h02m") parts refl
      ((refl, refl, refl, refl), ((refl, refl, refl, refl), tt)) (omega arith) (omega arith)

abbrev entry : Entry
entry = record { name = text "cn"; kind = period_of 60; next = 100 }

abbrev last : List (Text × ℕ)
last = (text "cn", 30) ∷ []

abbrev no_calendar : ℕ → ℕ → ℕ
no_calendar hh mm = 0

process_entry-period_example :
    (r : Entry × List (Text × ℕ)) × (process_entry (2 ^ 63) no_calendar false 200 entry last
      ≡ some r)
    × FollowsPeriod false 200 60 entry last r
unfolding last_success_of
process_entry-period_example =
    process_entry-period (2 ^ 63) no_calendar false 200 60 entry last refl (omega arith)
      (omega arith) (omega arith) (omega arith)

-- The period of 106751991167301 days, with seconds of the clock up to 2^63.
late_test :
    next_period_point (2 ^ 63 * 1_000_000_000) 0 (106751991167301 * 86400 * 1_000_000_000) 0 ≡ none
unfolding next_period_point
late_test = refl
