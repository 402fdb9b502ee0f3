-- ===== src/Routing/Lowering/Tries/Masked.antt =====
-- Tries of networks as the crate ipnet makes them: the trie at the index of a list is that list.
use dae_rs.Prelude.{
  ℕ, ◌-◌, ◌%◌, ◌^◌, ◌≡◌, refl, sym, ap, ap₂, subst, ◌∙◌, true, List, [], ◌∷◌, ◌++◌, some, get_elem?,
  arith, Bool-cases, inl, inr, none, Option,
}
use dae_rs.Ruleset.IpSet.{Net, IpNet, v4, v6}
use dae_rs.Routing.Expression.{Parsed, ok, err}
use dae_rs.Routing.Lowering.Tries.{
  Tries, net_eq, nets_eq, push_trie, reuse, find_or_create, find_or_create_lpm_trie, find_hash,
  hash_cidrs,
}
use dae_rs.Routing.Lowering.Tries.Laws.{AllIndexed, Placed, find_or_create_lpm_trie-IsPlaced}

-- What ipnet documents of `network()`: the address without its host bits.
abbrev pub IsMasked : ℕ → Net → Type 0
IsMasked width n = n.network ≡ n.addr - n.addr % 2 ^ (width - n.prefix_len)

abbrev pub AllMasked : List IpNet → Type 0
AllMasked [] = Unit {0}
AllMasked (v4 n ∷ ns) = IsMasked 32 n × AllMasked ns
AllMasked (v6 n ∷ ns) = IsMasked 128 n × AllMasked ns

abbrev pub AllTriesMasked : List (List IpNet) → Type 0
AllTriesMasked [] = Unit {0}
AllTriesMasked (nets ∷ l) = AllMasked nets × AllTriesMasked l

net_at :
    (width : ℕ) (m n : Net)
    → IsMasked width m
    → IsMasked width n
    → m.addr ≡ n.addr
    → m.prefix_len ≡ n.prefix_len
    → m ≡ n
net_at width m n h k a p =
    let w : m.network ≡ n.network = h ∙ ap₂ (λ (x y : ℕ). x - x % 2 ^ (width - y)) a p ∙ sym k in
    λ i. record { addr = a i; network = w i; prefix_len = p i }

nets_eq-AllMasked :
    (ms ns : List IpNet) → AllMasked ms → AllMasked ns → nets_eq ms ns ≡ true → ms ≡ ns
unfolding nets_eq net_eq
nets_eq-AllMasked [] [] h k e = refl
nets_eq-AllMasked [] (n ∷ ns) h k e = absurd (cc e)
nets_eq-AllMasked (m ∷ ms) [] h k e = absurd (cc e)
nets_eq-AllMasked (v4 m ∷ ms) (v6 n ∷ ns) h k e = absurd (cc e)
nets_eq-AllMasked (v6 m ∷ ms) (v4 n ∷ ns) h k e = absurd (cc e)
nets_eq-AllMasked (v4 m ∷ ms) (v4 n ∷ ns) h k e =
    let a : m.addr ≡ n.addr = ground (arith, e) in
    let p : m.prefix_len ≡ n.prefix_len = ground (arith, e) in
    ap₂ (λ (x : Net) (l : List IpNet). v4 x ∷ l) (net_at 32 m n h.0 k.0 a p)
      (nets_eq-AllMasked ms ns h.1 k.1 (ground (arith, e)))
nets_eq-AllMasked (v6 m ∷ ms) (v6 n ∷ ns) h k e =
    let a : m.addr ≡ n.addr = ground (arith, e) in
    let p : m.prefix_len ≡ n.prefix_len = ground (arith, e) in
    ap₂ (λ (x : Net) (l : List IpNet). v6 x ∷ l) (net_at 128 m n h.0 k.0 a p)
      (nets_eq-AllMasked ms ns h.1 k.1 (ground (arith, e)))

get_elem?-AllTriesMasked :
    (l : List (List IpNet)) (i : ℕ) (nets : List IpNet)
    → AllTriesMasked l
    → get_elem? l i ≡ some nets
    → AllMasked nets
get_elem?-AllTriesMasked [] i nets h e = ground arith
get_elem?-AllTriesMasked (x ∷ l) ℕ.zero nets h e = subst AllMasked (some_injective e) h.0
  where
    some_injective : ◌≡◌ {A = Option (List IpNet)} (some x) (some nets) → x ≡ nets
    some_injective e = cc
get_elem?-AllTriesMasked (x ∷ l) (ℕ.suc i) nets h e = get_elem?-AllTriesMasked l i nets h.1 e

AllTriesMasked-snoc :
    (l : List (List IpNet)) (nets : List IpNet)
    → AllTriesMasked l
    → AllMasked nets
    → AllTriesMasked (l ++ nets ∷ [])
AllTriesMasked-snoc [] nets h k = (k, tt)
AllTriesMasked-snoc (x ∷ l) nets h k = (h.0, AllTriesMasked-snoc l nets h.1 k)

-- The tries keep being masked.
abbrev MaskedResult : Parsed (Tries × ℕ) → Type 0
MaskedResult (err e) = Unit {0}
MaskedResult (ok r) = AllTriesMasked r.0.lpm_tries

push_trie-Masked :
    (cidrs : List IpNet) (hash : ℕ) (t : Tries)
    → AllTriesMasked t.lpm_tries
    → AllMasked cidrs
    → AllTriesMasked (push_trie cidrs hash t).0.lpm_tries
unfolding push_trie
push_trie-Masked cidrs hash t h k = AllTriesMasked-snoc t.lpm_tries cidrs h k

reuse-Masked :
    (cidrs : List IpNet) (hash index : ℕ) (t : Tries) (o : Option (List IpNet))
    → AllTriesMasked t.lpm_tries
    → AllMasked cidrs
    → MaskedResult (reuse cidrs hash index t o)
unfolding reuse
reuse-Masked cidrs hash index t none h k = tt
reuse-Masked cidrs hash index t (some nets) h k = elim (Bool-cases (nets_eq nets cidrs)) [
  | inl e ↦ rw e h
  | inr e ↦ rw e (push_trie-Masked cidrs hash t h k)
]

find_or_create-Masked :
    (cidrs : List IpNet) (hash : ℕ) (t : Tries) (o : Option ℕ)
    → AllTriesMasked t.lpm_tries
    → AllMasked cidrs
    → MaskedResult (find_or_create cidrs hash t o)
unfolding find_or_create
find_or_create-Masked cidrs hash t none h k = push_trie-Masked cidrs hash t h k
find_or_create-Masked cidrs hash t (some index) h k =
    reuse-Masked cidrs hash index t (get_elem? t.lpm_tries index) h k

-- Where the tries and the list are masked, the trie at the index that the list is given is the list.
pub find_or_create_lpm_trie-AllMasked :
    (cidrs : List IpNet) (t : Tries)
    → AllIndexed t
    → AllTriesMasked t.lpm_tries
    → AllMasked cidrs
    → (r : Tries × ℕ) × (find_or_create_lpm_trie cidrs t ≡ ok r)
      × Placed cidrs t r
      × AllTriesMasked r.0.lpm_tries
      × (get_elem? r.0.lpm_tries r.1 ≡ some cidrs)
find_or_create_lpm_trie-AllMasked cidrs t w h k =
    let placed = find_or_create_lpm_trie-IsPlaced cidrs t w in
    let masked : AllTriesMasked placed.0.0.lpm_tries = subst MaskedResult placed.1 (
      unfold find_or_create_lpm_trie in
      find_or_create-Masked cidrs (hash_cidrs cidrs) t (find_hash (hash_cidrs cidrs) t.lpm_dedup) h
        k) in
    let same =
      nets_eq-AllMasked placed.2.2.0 cidrs
        (get_elem?-AllTriesMasked _ placed.0.1 _ masked placed.2.2.1) k placed.2.2.2 in
    (placed.0, placed.1, placed.2, masked, placed.2.2.1 ∙ ap some same)
