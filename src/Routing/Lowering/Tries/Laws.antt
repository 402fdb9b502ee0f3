-- ===== src/Routing/Lowering/Tries/Laws.antt =====
-- The tries of a lowering: indices stay in bounds, and lists that were added stay where they are.
use dae_rs.Prelude.{
  ℕ, zero, suc, ◌+◌, ◌≡◌, ◌≤◌, ◌<◌, refl, sym, ap, ◌∙◌, subst, true, List, [], ◌∷◌, ◌++◌, Option,
  none, some, append_assoc, append-nil, length, length-append, get_elem?, arith, Bool-cases, inl,
  inr,
}
use dae_rs.Ruleset.IpSet.{IpNet, v4, v6}
use dae_rs.Routing.Expression.{Parsed, ok}
use dae_rs.Routing.Lowering.Tries.{
  Tries, net_eq, nets_eq, find_hash, push_trie, reuse, find_or_create, find_or_create_lpm_trie,
  hash_cidrs,
}

-- Every index of the map of hashes is one of a trie.
abbrev InBounds : ℕ → List (ℕ × ℕ) → Type 0
InBounds n [] = Unit {0}
InBounds n (e ∷ es) = (e.1 < n) × InBounds n es

abbrev pub AllIndexed : Tries → Type 0
AllIndexed t = InBounds (length t.lpm_tries) t.lpm_dedup

-- The tries of the second begin with those of the first.
abbrev pub Extends : Tries → Tries → Type 0
Extends t u = (more : List (List IpNet)) × (u.lpm_tries ≡ t.lpm_tries ++ more)

pub Extends-refl : (t : Tries) → Extends t t
Extends-refl t = ([], sym (append-nil t.lpm_tries))

pub Extends-trans : (t u v : Tries) → Extends t u → Extends u v → Extends t v
Extends-trans t u v h k = (
  h.0 ++ k.0,
  k.1 ∙ ap (λ (l : List (List IpNet)). l ++ k.0) h.1 ∙ append_assoc t.lpm_tries h.0 k.0,
)

InBounds-suc : (n : ℕ) (es : List (ℕ × ℕ)) → InBounds n es → InBounds (n + 1) es
InBounds-suc n [] h = tt
InBounds-suc n (e ∷ es) h = (omega arith, InBounds-suc n es h.1)

find_hash-InBounds :
    (n h i : ℕ) (es : List (ℕ × ℕ)) → InBounds n es → find_hash h es ≡ some i → i < n
unfolding find_hash
find_hash-InBounds n h i [] w e = ground arith
find_hash-InBounds n h i (x ∷ es) w e = ground (arith, find_hash-InBounds n h i es w.1)

pub get_elem?-lt {ℓ} :
    {A : Type ℓ} (xs : List A) (i : ℕ) → i < length xs → (a : A) × (get_elem? xs i ≡ some a)
get_elem?-lt [] i h = elim h [ ]
get_elem?-lt (x ∷ xs) zero h = (x, refl)
get_elem?-lt (x ∷ xs) (suc i) h = get_elem?-lt xs i (omega arith)

pub get_elem?-append {ℓ} :
    {A : Type ℓ} (xs ys : List A) (i : ℕ) (a : A)
    → get_elem? xs i ≡ some a
    → get_elem? (xs ++ ys) i ≡ some a
get_elem?-append [] ys i a e = ground arith
get_elem?-append (x ∷ xs) ys zero a e = e
get_elem?-append (x ∷ xs) ys (suc i) a e = get_elem?-append xs ys i a e

-- What stands at an index still stands there.
pub get_elem?-Extends :
    (t u : Tries) (i : ℕ) (nets : List IpNet)
    → Extends t u
    → get_elem? t.lpm_tries i ≡ some nets
    → get_elem? u.lpm_tries i ≡ some nets
get_elem?-Extends t u i nets h e =
    ap (λ (l : List (List IpNet)). get_elem? l i) h.1 ∙ get_elem?-append t.lpm_tries h.0 i nets e

get_elem?-snoc {ℓ} :
    {A : Type ℓ} (xs : List A) (a : A) → get_elem? (xs ++ a ∷ []) (length xs) ≡ some a
get_elem?-snoc [] a = refl
get_elem?-snoc (x ∷ xs) a = get_elem?-snoc xs a

nets_eq_refl : (ns : List IpNet) → nets_eq ns ns ≡ true
unfolding nets_eq net_eq
nets_eq_refl [] = refl
nets_eq_refl (v4 n ∷ ns) = ground (arith, nets_eq_refl ns)
nets_eq_refl (v6 n ∷ ns) = ground (arith, nets_eq_refl ns)

-- What an operation on the tries promises of the index it returns for a list.
abbrev pub Placed : List IpNet → Tries → Tries × ℕ → Type 0
Placed cidrs t r =
    AllIndexed r.0
    × Extends t r.0
    × ((nets : List IpNet) × (get_elem? r.0.lpm_tries r.1 ≡ some nets)
        × (nets_eq nets cidrs ≡ true))
    × (length r.0.lpm_tries ≤ length t.lpm_tries + 1)

push_trie-Placed :
    (cidrs : List IpNet) (hash : ℕ) (t : Tries)
    → AllIndexed t
    → Placed cidrs t (push_trie cidrs hash t)
unfolding push_trie
push_trie-Placed cidrs hash t w =
    let at : length (t.lpm_tries ++ cidrs ∷ []) ≡ length t.lpm_tries + 1 =
      length-append t.lpm_tries (cidrs ∷ []) in
    (
      (
        omega (arith, at),
        subst (λ n. InBounds n t.lpm_dedup) (sym at)
            (InBounds-suc (length t.lpm_tries) t.lpm_dedup w),
      ),
      (cidrs ∷ [], refl),
      (cidrs, get_elem?-snoc t.lpm_tries cidrs, nets_eq_refl cidrs),
      omega (arith, at),
    )

-- Some result, in the sense of `Placed`.
abbrev pub IsPlaced : List IpNet → Tries → Parsed (Tries × ℕ) → Type 0
IsPlaced cidrs t p = (r : Tries × ℕ) × (p ≡ ok r) × Placed cidrs t r

pushed :
    (cidrs : List IpNet) (hash : ℕ) (t : Tries)
    → AllIndexed t
    → IsPlaced cidrs t (ok (push_trie cidrs hash t))
pushed cidrs hash t w = (push_trie cidrs hash t, refl, push_trie-Placed cidrs hash t w)

reuse-IsPlaced :
    (cidrs : List IpNet) (hash index : ℕ) (t : Tries) (nets : List IpNet)
    → AllIndexed t
    → get_elem? t.lpm_tries index ≡ some nets
    → IsPlaced cidrs t (reuse cidrs hash index t (some nets))
unfolding reuse
reuse-IsPlaced cidrs hash index t nets w e = elim (Bool-cases (nets_eq nets cidrs)) [
  | inl same ↦ rw same ((t, index), refl, (w, Extends-refl t, (nets, e, same), omega arith))
  | inr differ ↦ rw differ (pushed cidrs hash t w)
]

find_or_create-IsPlaced :
    (cidrs : List IpNet) (hash : ℕ) (t : Tries) (o : Option ℕ)
    → AllIndexed t
    → find_hash hash t.lpm_dedup ≡ o
    → IsPlaced cidrs t (find_or_create cidrs hash t o)
unfolding find_or_create
find_or_create-IsPlaced cidrs hash t none w e = pushed cidrs hash t w
find_or_create-IsPlaced cidrs hash t (some index) w e =
    let at = get_elem?-lt t.lpm_tries index (find_hash-InBounds _ hash index t.lpm_dedup w e) in
    subst (λ o. IsPlaced cidrs t (reuse cidrs hash index t o)) (sym at.1)
      (reuse-IsPlaced cidrs hash index t at.0 w at.1)

-- A list is placed at an index, with no panic, where every index of the map of hashes is one of a trie:
-- then this holds again, the trie at that index has the list's networks (the same addresses and prefix
-- lengths), and the tries that were there before stand where they stood, with at most one more.
pub find_or_create_lpm_trie-IsPlaced :
    (cidrs : List IpNet) (t : Tries)
    → AllIndexed t
    → IsPlaced cidrs t (find_or_create_lpm_trie cidrs t)
unfolding find_or_create_lpm_trie
find_or_create_lpm_trie-IsPlaced cidrs t w =
    let hash = hash_cidrs cidrs in
    find_or_create-IsPlaced cidrs hash t (find_hash hash t.lpm_dedup) w refl
