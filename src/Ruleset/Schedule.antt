-- ===== src/Ruleset/Schedule.antt =====
-- When rule sets are updated: `parse_time` and `parse_period` of control/src/ruleset/types.rs, and the
-- trigger instants of control/src/ruleset/scheduler.rs. An instant is a number of nanoseconds of the
-- monotonic clock, a duration too.
use dae_rs.Prelude.{
  ℕ, ◌+◌, ◌-◌, ◌*◌, ◌/◌, ◌^◌, Bool, true, false, ◌&&◌, ◌||◌, List, [], ◌∷◌, ◌++◌, Option, none,
  some, min, ltb, leb, ◌==◌, if◌then◌else◌,
}
use dae_rs.Text.{Text, text, text_eq, is_empty, trim, split_once}
use dae_rs.Text.Equality.{any}
use dae_rs.Text.Numbers.{from_str_radix}
pub mod Periods
pub mod Points

pub data ScheduleError : Type 0 where
  no_colon seconds_forbidden empty_part bad_hour bad_minute hour_range minute_range : ScheduleError
  empty_period expected_number bad_number missing_unit illegal_unit overflow : ScheduleError
  not_positive : ScheduleError

pub data Checked {ℓ} (A : Type ℓ) : Type ℓ where
  ok : A → Checked A
  err : ScheduleError → Checked A

infixl 5 ◌>>=◌
abbrev pub ◌>>=◌ {ℓ κ} : {A : Type ℓ} {B : Type κ} → Checked A → (A → Checked B) → Checked B
ok a >>= f = f a
err e >>= f = err e

abbrev pub map_err {ℓ} : {A : Type ℓ} → Option A → ScheduleError → Checked A
map_err none e = err e
map_err (some a) e = ok a

-- `if test { return Err(..) }`
abbrev pub guard : Bool → ScheduleError → Checked (Unit {0})
guard true e = err e
guard false e = ok tt

unfoldable pub parse_parts : Text × Text → Checked (ℕ × ℕ)
unfolding is_empty any from_str_radix
parse_parts p = do
  _ ← guard (any (λ c. c == b':') p.1) seconds_forbidden
  _ ← guard (is_empty p.0 || is_empty p.1) empty_part
  hh ← map_err (from_str_radix (2 ^ 8) 10 p.0) bad_hour
  mm ← map_err (from_str_radix (2 ^ 8) 10 p.1) bad_minute
  _ ← guard (ltb 23 hh) hour_range
  _ ← guard (ltb 59 mm) minute_range
  ok (hh, mm)

unfoldable pub parse_time : Text → Checked (ℕ × ℕ)
unfolding trim split_once parse_parts
parse_time hhmm = map_err (split_once b':' (trim hhmm)) no_colon >>= parse_parts

abbrev pub is_ascii_digit : ℕ → Bool
is_ascii_digit c = leb b'0' c && leb c b'9'

unfoldable pub unit_secs : ℕ → Checked ℕ
unit_secs c =
    if c == b'd'
    then ok 86400
    else if c == b'h'
    then ok 3600
    else if c == b'm'
    then ok 60
    else err illegal_unit

-- `checked_mul` and `checked_add` of u64.
unfoldable pub checked_u64 : ℕ → Checked ℕ
checked_u64 n = if ltb n (2 ^ 64) then ok n else err overflow

-- The outer loop, with the digits of the number that is being read.
unfoldable pub period_loop : ℕ → Text → Text → Checked ℕ
unfolding from_str_radix is_empty unit_secs checked_u64
period_loop total digits [] =
    if is_empty digits
    then ok total
    else (map_err (from_str_radix (2 ^ 64) 10 digits) bad_number >>= λ num. err missing_unit)
period_loop total digits (c ∷ cs) =
    let more = period_loop total (digits ++ c ∷ []) cs in
    if is_ascii_digit c then more else if is_empty digits then err expected_number else (do
      num ← map_err (from_str_radix (2 ^ 64) 10 digits) bad_number
      secs ← unit_secs c
      product ← checked_u64 (num * secs)
      sum ← checked_u64 (total + product)
      period_loop sum [] cs)

-- The period in seconds.
unfoldable pub parse_period : Text → Checked ℕ
unfolding trim is_empty period_loop
parse_period spec = do
  _ ← guard (is_empty (trim spec)) empty_period
  total ← period_loop 0 [] (trim spec)
  _ ← guard (total == 0) not_positive
  ok total

abbrev pub nanos_per_sec : ℕ
nanos_per_sec = 1_000_000_000

-- `Duration::MAX`, where `saturating_mul` ends.
abbrev pub duration_max : ℕ
duration_max = (2 ^ 64 - 1) * nanos_per_sec + 999_999_999

-- `Instant + Duration` of the standard library, with its latest instant; `none` is the panic.
abbrev pub add_duration : ℕ → ℕ → ℕ → Option ℕ
add_duration latest at duration = if leb (at + duration) latest then some (at + duration) else none

unfoldable pub next_period_point : ℕ → ℕ → ℕ → ℕ → Option ℕ
next_period_point latest last_success period now =
    let elapsed = now - last_success in
    let step = if period == 0 then 1 else elapsed / period + 1 in
    add_duration latest last_success (min (period * min step (2 ^ 32 - 1)) duration_max)

pub data TriggerKind : Type 0 where
  time_at : ℕ → ℕ → TriggerKind
  period_of : ℕ → TriggerKind

pub record Entry : Type 0 where
  pub name : Text
  pub kind : TriggerKind
  pub next : ℕ

-- The map `last_success`, newest entry first.
unfoldable pub last_success_of : Text → List (Text × ℕ) → Option ℕ
unfolding text_eq
last_success_of name [] = none
last_success_of name (e ∷ es) = if text_eq name e.0 then some e.1 else last_success_of name es

abbrev pub unwrap_or : Option ℕ → ℕ → ℕ
unwrap_or none d = d
unwrap_or (some a) d = a

abbrev pub set_next : Entry → List (Text × ℕ) → Option ℕ → Option (Entry × List (Text × ℕ))
set_next e last_success none = none
set_next e last_success (some next) = some (record e { next = next }, last_success)

-- The latest instant and the calendar are parameters: the instant of the next time of day is
-- `local_to_instant` of `next_time_trigger` with the crate chrono. `updated` says whether the updater
-- succeeded.
module _ (latest : ℕ) (next_time : ℕ → ℕ → ℕ) where
  unfoldable pub next_of : TriggerKind → ℕ → ℕ → Option ℕ
  unfolding next_period_point
  next_of (time_at hh mm) base now = some (next_time hh mm)
  next_of (period_of period) base now = next_period_point latest base period now

  unfoldable pub process_entry :
      Bool → ℕ → Entry → List (Text × ℕ) → Option (Entry × List (Text × ℕ))
  unfolding next_of last_success_of
  process_entry true now e last_success =
      set_next e ((e.name, now) ∷ last_success) (next_of e.kind now now)
  process_entry false now e last_success =
      set_next e last_success
        (next_of e.kind (unwrap_or (last_success_of e.name last_success) now) now)
