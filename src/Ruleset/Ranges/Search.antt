-- ===== src/Ruleset/Ranges/Search.antt =====
-- `contains_in_ranges` is the linear scan, on ranges that are in order and apart.
use dae_rs.Prelude.{
  ℕ, zero, suc, ◌+◌, ◌-◌, ◌/◌, ◌≤◌, ◌<◌, ◌≡◌, refl, ap, false, ◌&&◌, List, [], ◌∷◌, some, arith,
  ◌==◌, ltb, leb, if◌then◌else◌, length, get_elem?,
}
use dae_rs.Ruleset.Ranges.{Range, starts_by, search, ends_after, contains_in_ranges}
use dae_rs.Ruleset.Ranges.Merge.{in_any, ApartFrom}

-- The number of ranges at the front that start at or before the address.
started : List Range → ℕ → ℕ
started [] ip = 0
started (r ∷ rs) ip = if leb r.first ip then suc (started rs ip) else 0

started_above : (b : ℕ) (rs : List Range) (ip : ℕ) → ApartFrom b rs → ip < b → started rs ip ≡ 0
unfolding started
started_above b [] ip w h = refl
started_above b (r ∷ rs) ip w h = ground arith

started-le : (rs : List Range) (ip : ℕ) → started rs ip ≤ length rs
unfolding started
started-le [] ip = omega arith
started-le (r ∷ rs) ip = ground (arith, started-le rs ip)

-- On ranges in order, an index is below that number exactly if its range has started.
starts_by-started :
    (b : ℕ) (rs : List Range) (ip i : ℕ)
    → ApartFrom b rs
    → starts_by (get_elem? rs i) ip ≡ ltb i (started rs ip)
unfolding starts_by started
starts_by-started b [] ip i w = ground arith
starts_by-started b (r ∷ rs) ip zero w = ground arith
starts_by-started b (r ∷ rs) ip (suc i) w =
    ground (arith, starts_by-started (suc r.last) rs ip i w.2, started_above (suc r.last) rs ip w.2)

-- The loop's invariant `lo ≤ started ≤ hi` holds to the end, where the two meet.
search-started :
    (fuel : ℕ) (b : ℕ) (rs : List Range) (ip lo hi : ℕ)
    → ApartFrom b rs
    → lo ≤ started rs ip
    → started rs ip ≤ hi
    → hi - lo ≤ fuel
    → search fuel rs ip lo hi ≡ started rs ip
unfolding search
search-started zero b rs ip lo hi w p q f = omega arith
search-started (suc fuel) b rs ip lo hi w p q f = ground (
  arith,
  starts_by-started b rs ip ((lo + hi) / 2) w,
  search-started fuel b rs ip ((lo + hi) / 2 + 1) hi w,
  search-started fuel b rs ip lo ((lo + hi) / 2) w,
)

in_any_above :
    (b : ℕ) (rs : List Range) (ip : ℕ) → ApartFrom b rs → started rs ip ≡ 0 → in_any rs ip ≡ false
unfolding in_any started
in_any_above b [] ip w h = refl
in_any_above b (r ∷ rs) ip w h =
    ground (arith, in_any_above (suc r.last) rs ip w.2, started_above (suc r.last) rs ip w.2)

next_index :
    (r : Range) (rs : List Range) (n : ℕ)
    → get_elem? (r ∷ rs) n ≡ (if n == 0 then some r else get_elem? rs (n - 1))
next_index r rs zero = refl
next_index r rs (suc n) = ground (arith, ap (get_elem? rs) same)
  where
    same : n ≡ suc n - 1
    same = omega arith

-- Only the last range that has started can hold the address.
in_any-started :
    (b : ℕ) (rs : List Range) (ip : ℕ)
    → ApartFrom b rs
    → (ltb 0 (started rs ip) && ends_after (get_elem? rs (started rs ip - 1)) ip) ≡ in_any rs ip
unfolding in_any started ends_after
in_any-started b [] ip w = refl
in_any-started b (r ∷ rs) ip w = ground (
  arith,
  in_any-started (suc r.last) rs ip w.2,
  in_any_above (suc r.last) rs ip w.2,
  started_above (suc r.last) rs ip w.2,
  next_index r rs (started rs ip),
)

-- On valid ranges that are in order and apart, the binary search answers as the linear scan does.
pub contains_in_ranges-in_any :
    (rs : List Range) (ip : ℕ) → ApartFrom 0 rs → contains_in_ranges rs ip ≡ in_any rs ip
unfolding contains_in_ranges in_any
contains_in_ranges-in_any [] ip w = refl
contains_in_ranges-in_any (r ∷ rs) ip w =
    rw
      (search-started (length (r ∷ rs)) 0 (r ∷ rs) ip 0 (length (r ∷ rs)) w (omega arith)
        (started-le (r ∷ rs) ip) (omega arith))
      (in_any-started 0 (r ∷ rs) ip w)
