-- ===== src/Text/Order/Search.antt =====
-- The search in a sorted list finds the members.
use dae_rs.Prelude.{
  ℕ, zero, suc, ◌+◌, ◌-◌, ◌/◌, ◌≤◌, ◌≡◌, refl, ◌∙◌, Bool, false, List, [], ◌∷◌, arith, ltb,
  if◌then◌else◌, length, get_elem?,
}
use dae_rs.Text.Equality.{any, mem_text, text_eq_iff}
use dae_rs.Text.{Text, text_eq}
use dae_rs.Text.Order.{
  text_lt, bisect, is_below, is_text, binary_search, sort, dedup, NoneBelow, IsSorted,
  NoneBelow-mono, IsSorted-sort, IsSorted-dedup, any-sort, any-dedup, text_le_antisymm,
}

-- A test that holds below `n` and fails from there on is bisected at `n`.
bisect_lem :
    (fuel : ℕ) (before : ℕ → Bool) (n lo hi : ℕ)
    → ((i : ℕ) → before i ≡ ltb i n)
    → lo ≤ n
    → n ≤ hi
    → hi - lo ≤ fuel
    → bisect fuel before lo hi ≡ n
unfolding bisect
bisect_lem zero before n lo hi h p q f = omega arith
bisect_lem (suc fuel) before n lo hi h p q f = ground (
  arith,
  h ((lo + hi) / 2),
  bisect_lem fuel before n ((lo + hi) / 2 + 1) hi h,
  bisect_lem fuel before n lo ((lo + hi) / 2) h,
)

-- The number of texts at the front that are below the one looked for.
below : List Text → Text → ℕ
below [] q = 0
below (s ∷ ss) q = if text_lt s q then suc (below ss q) else 0

below-le : (ss : List Text) (q : Text) → below ss q ≤ length ss
unfolding below
below-le [] q = omega arith
below-le (s ∷ ss) q = ground (arith, below-le ss q)

below-NoneBelow : (ss : List Text) (q : Text) → NoneBelow q ss → below ss q ≡ 0
unfolding below
below-NoneBelow [] q n = refl
below-NoneBelow (s ∷ ss) q n = ground arith

is_below-below :
    (ss : List Text) (q : Text) (i : ℕ)
    → IsSorted ss
    → is_below (get_elem? ss i) q ≡ ltb i (below ss q)
unfolding is_below below
is_below-below [] q i o = ground arith
is_below-below (s ∷ ss) q zero o = ground arith
is_below-below (s ∷ ss) q (suc i) o =
    ground (arith, is_below-below ss q i o.1, NoneBelow-mono q s ss, below-NoneBelow ss q)

text_lt_irrefl : (s : Text) → text_lt s s ≡ false
unfolding text_lt
text_lt_irrefl [] = refl
text_lt_irrefl (c ∷ cs) = ground (arith, text_lt_irrefl cs)

-- Above the text looked for, only an equal one at the front can be a member.
mem_text-NoneBelow :
    (s : Text) (ss : List Text) (q : Text)
    → text_lt s q ≡ false
    → NoneBelow s ss
    → text_eq s q ≡ false
    → mem_text q ss ≡ false
unfolding any
mem_text-NoneBelow s [] q h n e = refl
mem_text-NoneBelow s (t ∷ ts) q h n e = ground (
  arith,
  mem_text-NoneBelow s ts q h n.1 e,
  text_eq_iff q t,
  text_eq_iff s q,
  text_le_antisymm s q,
)

is_text-below :
    (ss : List Text) (q : Text)
    → IsSorted ss
    → is_text (get_elem? ss (below ss q)) q ≡ mem_text q ss
unfolding is_text below any
is_text-below [] q o = refl
is_text-below (s ∷ ss) q o = ground (
  arith,
  is_text-below ss q o.1,
  text_eq_iff q s,
  text_eq_iff s q,
  text_lt_irrefl s,
  mem_text-NoneBelow s ss q,
)

binary_search-mem_text :
    (ss : List Text) (q : Text) → IsSorted ss → binary_search ss q ≡ mem_text q ss
unfolding binary_search
binary_search-mem_text ss q o =
    rw
      (bisect_lem (length ss) (λ i. is_below (get_elem? ss i) q) (below ss q) 0 (length ss)
        (λ i. is_below-below ss q i o) (omega arith) (below-le ss q) (omega arith))
      (is_text-below ss q o)

-- After `sort` and `dedup`, `binary_search` succeeds exactly on the texts of the list.
pub binary_search-dedup :
    (ss : List Text) (q : Text) → binary_search (dedup (sort ss)) q ≡ mem_text q ss
binary_search-dedup ss q =
    binary_search-mem_text (dedup (sort ss)) q (IsSorted-dedup (sort ss) (IsSorted-sort ss))
    ∙ any-dedup (text_eq q) (sort ss)
    ∙ any-sort (text_eq q) ss
