-- ===== src/Ruleset/Ranges/Merge.antt =====
-- What `merge_ranges` returns: the same addresses, in ranges that are in order and apart.
use dae_rs.Prelude.{
  ℕ, suc, ◌≤◌, ◌≡◌, refl, ap, ◌∙◌, Bool, false, ◌&&◌, ◌||◌, List, [], ◌∷◌, arith, leb,
}
use dae_rs.Ruleset.Ranges.{
  Range, insert_by_first, sort_by_first, merge_onto, merge_sorted, merge_ranges,
}

unfoldable pub covers : Range → ℕ → Bool
covers r a = leb r.first a && leb a r.last

-- The linear scan over a list of ranges.
unfoldable pub in_any : List Range → ℕ → Bool
unfolding covers
in_any [] a = false
in_any (r ∷ rs) a = covers r a || in_any rs a

abbrev pub AllValid : List Range → Type 0
AllValid [] = Unit {0}
AllValid (r ∷ rs) = (r.first ≤ r.last) × AllValid rs

-- Starts do not fall along the list, and none is below the bound.
abbrev pub SortedFrom : ℕ → List Range → Type 0
SortedFrom b [] = Unit {0}
SortedFrom b (r ∷ rs) = (b ≤ r.first) × SortedFrom r.first rs

-- Each range begins after the end of the one before, and the first not below the bound.
abbrev pub ApartFrom : ℕ → List Range → Type 0
ApartFrom b [] = Unit {0}
ApartFrom b (r ∷ rs) = (b ≤ r.first) × (r.first ≤ r.last) × ApartFrom (suc r.last) rs

in_any-insert :
    (r : Range) (rs : List Range) (a : ℕ) → in_any (insert_by_first r rs) a ≡ in_any (r ∷ rs) a
unfolding insert_by_first in_any
in_any-insert r [] a = refl
in_any-insert r (x ∷ xs) a = ground (arith, in_any-insert r xs a)

in_any-sort : (rs : List Range) (a : ℕ) → in_any (sort_by_first rs) a ≡ in_any rs a
unfolding sort_by_first in_any
in_any-sort [] a = refl
in_any-sort (r ∷ rs) a =
    in_any-insert r (sort_by_first rs) a ∙ ap (λ b. covers r a || b) (in_any-sort rs a)

AllValid-insert :
    (r : Range) (rs : List Range) → r.first ≤ r.last → AllValid rs → AllValid (insert_by_first r rs)
unfolding insert_by_first
AllValid-insert r [] h v = (h, tt)
AllValid-insert r (x ∷ xs) h v = ground (arith, AllValid-insert r xs h v.1)

AllValid-sort : (rs : List Range) → AllValid rs → AllValid (sort_by_first rs)
unfolding sort_by_first
AllValid-sort [] v = tt
AllValid-sort (r ∷ rs) v = AllValid-insert r (sort_by_first rs) v.0 (AllValid-sort rs v.1)

SortedFrom-insert :
    (b : ℕ) (r : Range) (rs : List Range)
    → b ≤ r.first
    → SortedFrom b rs
    → SortedFrom b (insert_by_first r rs)
unfolding insert_by_first
SortedFrom-insert b r [] h s = (h, tt)
SortedFrom-insert b r (x ∷ xs) h s = ground (arith, SortedFrom-insert x.first r xs)

SortedFrom-sort : (rs : List Range) → SortedFrom 0 (sort_by_first rs)
unfolding sort_by_first
SortedFrom-sort [] = tt
SortedFrom-sort (r ∷ rs) =
    SortedFrom-insert 0 r (sort_by_first rs) (omega arith) (SortedFrom-sort rs)

in_any-merge_onto :
    (l : Range) (rs : List Range) (a : ℕ)
    → l.first ≤ l.last
    → SortedFrom l.first rs
    → AllValid rs
    → in_any (merge_onto l rs) a ≡ in_any (l ∷ rs) a
unfolding merge_onto in_any
in_any-merge_onto l [] a h s v = refl
in_any-merge_onto l (r ∷ rs) a h s v = ground (
  arith,
  in_any-merge_onto (record l { last = r.last }) rs a,
  in_any-merge_onto l rs a,
  in_any-merge_onto r rs a,
  SortedFrom-weaken l.first r.first rs,
)
  where
    SortedFrom-weaken : (b c : ℕ) (xs : List Range) → b ≤ c → SortedFrom c xs → SortedFrom b xs
    SortedFrom-weaken b c [] h s = tt
    SortedFrom-weaken b c (x ∷ xs) h s = (omega arith, s.1)

ApartFrom-merge_onto :
    (l : Range) (rs : List Range) (b : ℕ)
    → b ≤ l.first
    → l.first ≤ l.last
    → AllValid rs
    → ApartFrom b (merge_onto l rs)
unfolding merge_onto
ApartFrom-merge_onto l [] b p h v = (p, h, tt)
ApartFrom-merge_onto l (r ∷ rs) b p h v = ground (
  arith,
  ApartFrom-merge_onto (record l { last = r.last }) rs b,
  ApartFrom-merge_onto l rs b,
  ApartFrom-merge_onto r rs (suc l.last),
)

in_any-merge_sorted :
    (rs : List Range) (a : ℕ)
    → SortedFrom 0 rs
    → AllValid rs
    → in_any (merge_sorted rs) a ≡ in_any rs a
unfolding merge_sorted
in_any-merge_sorted [] a s v = refl
in_any-merge_sorted (r ∷ rs) a s v = in_any-merge_onto r rs a v.0 s.1 v.1

ApartFrom-merge_sorted : (rs : List Range) → AllValid rs → ApartFrom 0 (merge_sorted rs)
unfolding merge_sorted
ApartFrom-merge_sorted [] v = tt
ApartFrom-merge_sorted (r ∷ rs) v = ApartFrom-merge_onto r rs 0 (omega arith) v.0 v.1

-- Sorting and merging valid ranges keeps exactly the addresses that they cover, and the ranges
-- that come out are valid, in order, and apart.
pub merge_ranges_sound :
    (rs : List Range)
    → AllValid rs
    → ((a : ℕ) → in_any (merge_ranges rs) a ≡ in_any rs a) × ApartFrom 0 (merge_ranges rs)
unfolding merge_ranges
merge_ranges_sound rs v =
    let sorted = SortedFrom-sort rs in
    let valid = AllValid-sort rs v in
    (
      λ a. in_any-merge_sorted (sort_by_first rs) a sorted valid ∙ in_any-sort rs a,
      ApartFrom-merge_sorted (sort_by_first rs) valid,
    )
