-- ===== src/Ruleset/Ranges.antt =====
-- control/src/ruleset/compiled.rs: `merge_ranges` and `contains_in_ranges`, on inclusive ranges of
-- addresses. An address (u32 or u128) is the number that it stands for.
use dae_rs.Prelude.{
  ℕ, zero, suc, ◌+◌, ◌-◌, ◌/◌, Bool, true, false, ◌&&◌, List, [], ◌∷◌, ◌++◌, Option, none, some,
  ltb, leb, if◌then◌else◌, length, get_elem?,
}
pub mod Merge
pub mod Search

pub record Range : Type 0 where
  pub first : ℕ
  pub last : ℕ

-- `sort_unstable_by_key(|(s, _)| *s)`, as an insertion sort.
pub insert_by_first : Range → List Range → List Range
insert_by_first r [] = r ∷ []
insert_by_first r (x ∷ xs) = if leb r.first x.first then r ∷ x ∷ xs else x ∷ insert_by_first r xs

pub sort_by_first : List Range → List Range
sort_by_first [] = []
sort_by_first (r ∷ rs) = insert_by_first r (sort_by_first rs)

-- The loop of `merge_ranges`, from the state where `last` is the last range of `out`; the earlier
-- ranges of `out` are not read again, so that they are emitted when the loop moves on.
pub merge_onto : Range → List Range → List Range
merge_onto last [] = last ∷ []
merge_onto last (r ∷ rs) =
    let inside =
      merge_onto (if ltb last.last r.last then record last { last = r.last } else last) rs in
    let outside = last ∷ merge_onto r rs in if leb r.first last.last then inside else outside

-- From the empty `out`.
pub merge_sorted : List Range → List Range
merge_sorted [] = []
merge_sorted (r ∷ rs) = merge_onto r rs

unfoldable pub merge_ranges : List Range → List Range
unfolding merge_sorted sort_by_first insert_by_first merge_onto
merge_ranges rs = merge_sorted (sort_by_first rs)

-- `ranges[mid].0 <= ip`; the loop keeps `mid` in bounds.
pub starts_by : Option Range → ℕ → Bool
starts_by none ip = false
starts_by (some r) ip = leb r.first ip

-- The loop `while lo < hi`, on fuel; it returns `lo`.
pub search : ℕ → List Range → ℕ → ℕ → ℕ → ℕ
search zero rs ip lo hi = lo
search (suc fuel) rs ip lo hi =
    let mid = (lo + hi) / 2 in
    let right = search fuel rs ip (mid + 1) hi in
    let left = search fuel rs ip lo mid in
    if ltb lo hi then (if starts_by (get_elem? rs mid) ip then right else left) else lo

pub ends_after : Option Range → ℕ → Bool
ends_after none ip = false
ends_after (some r) ip = leb ip r.last

unfoldable pub contains_in_ranges : List Range → ℕ → Bool
unfolding search starts_by ends_after
contains_in_ranges [] ip = false
contains_in_ranges (r ∷ rs) ip =
    let lo = search (length (r ∷ rs)) (r ∷ rs) ip 0 (length (r ∷ rs)) in
    ltb 0 lo && ends_after (get_elem? (r ∷ rs) (lo - 1)) ip
