-- ===== src/Net/Janitor.antt =====
-- The pressure mode of `spawn_conn_state_janitor` in control/src/lib.rs. A usage is a floating-point
-- number there: its type and its comparisons with the two thresholds are parameters.
use dae_rs.Prelude.{ℕ, ◌+◌, Bool, true, false, List, [], ◌∷◌, leb, if◌then◌else◌}
pub mod Rows
pub mod Scan

abbrev pub pressure_exit_rounds : ℕ
pressure_exit_rounds = 3

pub record Pressure : Type 0 where
  pub in_pressure : Bool
  pub pressure_rounds : ℕ

abbrev pub initial : Pressure
initial = record { in_pressure = false; pressure_rounds = 0 }

-- The seconds that the task sleeps before a round.
unfoldable pub interval_secs : Pressure → ℕ
interval_secs s = if s.in_pressure then 1 else 5

-- What a round of the loop meets, in the order in which the round can end.
pub data Outcome (U : Type 0) : Type 0 where
  lock_failed scan_failed usage_failed : Outcome U
  usage : U → Outcome U

unfoldable pub detect : {U : Type 0} → (U → Bool) → (U → Bool) → U → Pressure → Pressure
detect below_exit above_enter u s =
    if s.in_pressure
    then (if below_exit u
        then (if leb pressure_exit_rounds (s.pressure_rounds + 1)
            then record { in_pressure = false; pressure_rounds = s.pressure_rounds + 1 }
            else record { in_pressure = true; pressure_rounds = s.pressure_rounds + 1 })
        else record { in_pressure = true; pressure_rounds = 0 })
    else (if above_enter u then record { in_pressure = true; pressure_rounds = 0 } else s)

unfoldable pub janitor_round :
    {U : Type 0} → (U → Bool) → (U → Bool) → Outcome U → Pressure → Pressure
unfolding detect
janitor_round below_exit above_enter lock_failed s = s
janitor_round below_exit above_enter scan_failed s = s
janitor_round below_exit above_enter usage_failed s = s
janitor_round below_exit above_enter (usage u) s = detect below_exit above_enter u s
