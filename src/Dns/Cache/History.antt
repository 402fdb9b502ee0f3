-- ===== src/Dns/Cache/History.antt =====
-- What the cache answers after a sequence of insertions, and how large it grows.
use dae_rs.Prelude.{
  ℕ, ◌≤◌, ◌<◌, ◌≡◌, refl, inl, inr, ◌↔◌, Bool, true, false, List, [], ◌∷◌, none, ◌==◌, length,
  arith, ==_iff, Bool-cases, sym, ◌∙◌, subst,
}
use dae_rs.Text.Equality.{text_eq_iff}
use dae_rs.Dns.Cache.{
  CacheKey, DnsCache, dns_cache_max, same_bit, key_eq, lookup, remove, retain, get, make_room,
  insert,
}

same_bit_iff : (a b : Bool) → (same_bit a b ≡ true) ↔ (a ≡ b)
unfolding same_bit
same_bit_iff true b = ground arith
same_bit_iff false b = ground arith

pub key_eq_iff : (k l : CacheKey) → (key_eq k l ≡ true) ↔ (k ≡ l)
unfolding key_eq
key_eq_iff k l = ground (
  arith,
  text_eq_iff k.qname l.qname,
  ==_iff k.qtype l.qtype,
  same_bit_iff k.has_edns l.has_edns,
  same_bit_iff k.do_bit l.do_bit,
)

-- No key stands twice.
abbrev pub Distinct : DnsCache → Type 0
Distinct [] = Unit
Distinct (e ∷ es) = (lookup e.0 es ≡ none) × Distinct es

lookup-remove : (key : CacheKey) (c : DnsCache) → lookup key (remove key c) ≡ none
unfolding lookup remove
lookup-remove key [] = refl
lookup-remove key (e ∷ es) = ground (arith, lookup-remove key es)

pub lookup-remove_other :
    (key other : CacheKey) (c : DnsCache)
    → key_eq key other ≡ false
    → lookup key (remove other c) ≡ lookup key c
unfolding lookup remove
lookup-remove_other key other [] h = refl
lookup-remove_other key other (e ∷ es) h =
    ground (arith, lookup-remove_other key other es h, key_eq_iff other e.0)

lookup-remove-none :
    (key other : CacheKey) (c : DnsCache) → lookup key c ≡ none → lookup key (remove other c) ≡ none
lookup-remove-none key other c h = elim (Bool-cases (key_eq key other)) [
  | inl same ↦
      subst (λ k. lookup key (remove k c) ≡ none) ((key_eq_iff key other).0 same)
        (lookup-remove key c)
  | inr differ ↦ lookup-remove_other key other c differ ∙ h
]

lookup-retain-none :
    (now : ℕ) (key : CacheKey) (c : DnsCache)
    → lookup key c ≡ none
    → lookup key (retain now c) ≡ none
unfolding lookup retain
lookup-retain-none now key [] h = refl
lookup-retain-none now key (e ∷ es) h = ground (arith, lookup-retain-none now key es)

remove-Distinct : (key : CacheKey) (c : DnsCache) → Distinct c → Distinct (remove key c)
unfolding remove
remove-Distinct key [] d = tt
remove-Distinct key (e ∷ es) d =
    ground (arith, remove-Distinct key es, lookup-remove-none e.0 key es)

retain-Distinct : (now : ℕ) (c : DnsCache) → Distinct c → Distinct (retain now c)
unfolding retain
retain-Distinct now [] d = tt
retain-Distinct now (e ∷ es) d =
    ground (arith, retain-Distinct now es, lookup-retain-none now e.0 es)

-- While an entry's time has not come, a sweep does not change what is answered.
pub get-retain :
    (now later : ℕ) (key : CacheKey) (c : DnsCache)
    → now ≤ later
    → Distinct c
    → get later key (retain now c) ≡ get later key c
unfolding get lookup retain
get-retain now later key [] t d = refl
get-retain now later key (e ∷ es) t d =
    let rest = get-retain now later key es t d.1 in
    elim (Bool-cases (key_eq key e.0)) [
      | inl same ↦
          let gone : lookup key es ≡ none =
            subst (λ k. lookup k es ≡ none) (sym ((key_eq_iff key e.0).0 same)) d.0 in
          let swept = lookup-retain-none now key es gone in ground (arith, same, gone, swept)
      | inr differ ↦ ground (arith, differ, rest)
    ]

make_room-Distinct : (now : ℕ) (c : DnsCache) → Distinct c → Distinct (make_room now c)
unfolding make_room
make_room-Distinct now c d = ground (arith, retain-Distinct now c d)

make_room-length : (now : ℕ) (c : DnsCache) → length (make_room now c) < dns_cache_max
unfolding make_room
make_room-length now c = ground arith

pub length-remove : (key : CacheKey) (c : DnsCache) → length (remove key c) ≤ length c
unfolding remove
length-remove key [] = omega arith
length-remove key (e ∷ es) = elim (Bool-cases (key_eq key e.0)) [
  | inl same ↦ ground (arith, same, length-remove key es)
  | inr differ ↦ ground (arith, differ, length-remove key es)
]

-- An insertion into a cache of at most 2048 entries with distinct keys leaves such a cache.
pub insert-bounded :
    (now : ℕ) (key : CacheKey) (response : List ℕ) (ttl : ℕ) (c : DnsCache)
    → Distinct c
    → length c ≤ dns_cache_max
    → Distinct (insert now key response ttl c)
      × (length (insert now key response ttl c) ≤ dns_cache_max)
unfolding insert
insert-bounded now key response ttl c d h =
    let room = make_room-length now c in
    let distinct = remove-Distinct key (make_room now c) (make_room-Distinct now c d) in
    let absent = lookup-remove key (make_room now c) in
    let fewer = length-remove key (make_room now c) in
    elim (Bool-cases (ttl == 0)) [
      | inl skipped ↦ rw skipped (d, h)
      | inr more ↦ rw more ((absent, distinct), omega arith)
    ]
