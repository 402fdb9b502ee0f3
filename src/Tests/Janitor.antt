-- ===== src/Tests/Janitor.antt =====
-- Instances of the theorems at concrete inputs: the janitor of control/src/lib.rs and its scans.
use dae_rs.Prelude.{ℕ, ◌≡◌, refl, Bool, true, false, not, List, [], ◌∷◌, some, none, ltb, arith}
use dae_rs.Net.Janitor.{initial, Outcome, usage_failed, usage}
use dae_rs.Net.Janitor.Rows.{stays, three, lows, stays-three}
use dae_rs.Net.Janitor.Scan.{Bytes, MapEntry, MapCalls, janitor_scan_and_delete}
use dae_rs.Net.Janitor.Scan.Ages.{cookie_pid_expired, from_ne_bytes}
use dae_rs.Net.Janitor.Scan.Deletes.{expired, expired_count, janitor_scan_and_delete-expired}

-- A stand-in for the floating-point usage, in percent.
abbrev below_exit : ℕ → Bool
below_exit u = ltb u 50

abbrev above_enter : ℕ → Bool
above_enter u = ltb 70 u

abbrev outcomes : List (Outcome ℕ)
outcomes = usage 40 ∷ usage 45 ∷ usage_failed ∷ usage 50 ∷ usage 30 ∷ []

stays-three_example :
    stays below_exit above_enter (usage 71 ∷ outcomes) initial
    ≡ not (three (lows below_exit outcomes))
stays-three_example = stays-three below_exit above_enter 71 initial outcomes refl refl

stays_test : stays below_exit above_enter (usage 71 ∷ outcomes) initial ≡ true
unfolding stays
stays_test = refl

abbrev cookie : ℕ → Bytes
cookie n = n ∷ 0 ∷ 0 ∷ 0 ∷ 0 ∷ 0 ∷ 0 ∷ 0 ∷ []

-- The value of the first entry was seen late, that of the second early.
abbrev late_and_early : List MapEntry
late_and_early =
    (cookie 1, 0 ∷ 0 ∷ 0 ∷ 0 ∷ 0 ∷ 1 ∷ 0 ∷ 0 ∷ [])
    ∷ (cookie 2, 0 ∷ 0 ∷ 0 ∷ 0 ∷ 1 ∷ 0 ∷ 0 ∷ 0 ∷ [])
    ∷ []

-- The batch lookup fails behind its first entry.
abbrev map_calls : MapCalls
map_calls = record {
  batch_lookup = ((cookie 2, cookie 0) ∷ [], false);
  per_key_scan = (late_and_early, true);
  batch_delete = λ keys. true;
  per_key_delete = λ keys. none;
}

janitor_scan_and_delete-expired_example :
    janitor_scan_and_delete 8 (cookie_pid_expired 1_200_000_000_000) true map_calls ≡ some (2, 1)
unfolding cookie_pid_expired from_ne_bytes expired_count expired
janitor_scan_and_delete-expired_example =
    janitor_scan_and_delete-expired 8 (cookie_pid_expired 1_200_000_000_000) true map_calls refl
      (omega arith) (refl, (refl, tt)) (omega arith)
