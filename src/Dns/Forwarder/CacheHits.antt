-- ===== src/Dns/Forwarder/CacheHits.antt =====
-- What `cached_lookup` answers behind `cache_store`.
use dae_rs.Prelude.{
  ℕ, suc, ◌≡◌, ◌+◌, ◌*◌, ◌<◌, ◌≤◌, refl, sym, ap, ◌∙◌, subst, ◌⊎◌, inl, inr, Bool, true, false,
  List, [], ◌∷◌, Option, none, some, ltb, ◌==◌, if◌then◌else◌, length, arith, Bool-cases,
}
use dae_rs.Text.{Text, text_eq}
use dae_rs.Text.Equality.{text_eq_iff}
use dae_rs.Dns.Read.{Read, value, nothing, crashed}
use dae_rs.Dns.Wire.{DnsQuery}
use dae_rs.Dns.Ttl.{parse_response_min_ttl}
use dae_rs.Dns.Response.{rewrite_response_id}
use dae_rs.Dns.Cache
use dae_rs.Dns.Cache.{CacheKey, DnsCache, dns_cache_max, nanos_per_sec}
use dae_rs.Dns.Cache.Replay.{get-insert_same, get-insert_other, get-insert_zero, length-insert}
use dae_rs.Dns.Forwarder.{
  Forwarder, Shared, on_option, get_cache, key_of_query, cached_lookup, store_read, cache_store,
}
use dae_rs.Dns.Forwarder.Isolation.{get_cache-set_cache, store_other}

lookup_with :
    (fw : Forwarder) (now : ℕ) (k : Text) (q : DnsQuery) (s : Shared) (found : Option (List ℕ))
    → fw.enable_cache ≡ true
    → Cache.get now (key_of_query q) (get_cache k s.caches) ≡ found
    → cached_lookup fw now k q s
      ≡ on_option found none (λ resp. some (rewrite_response_id resp q.id))
unfolding cached_lookup
lookup_with fw now k q s found on e = rw (on, e)

store_with :
    (fw : Forwarder) (now : ℕ) (k : Text) (q : DnsQuery) (response : List ℕ) (s : Shared) (ttl : ℕ)
    → fw.enable_cache ≡ true
    → parse_response_min_ttl response ≡ value ttl
    → get_cache k (cache_store fw now k q response s).caches
      ≡ Cache.insert now (key_of_query q) response ttl (get_cache k s.caches)
unfolding cache_store store_read
store_with fw now k q response s ttl on e =
    rw (on, e)
      (get_cache-set_cache k (Cache.insert now (key_of_query q) response ttl (get_cache k s.caches))
        s.caches)

on_option-if :
    (b : Bool) (response : List ℕ) (id : ℕ)
    → on_option
        (if b then some response else none)
        none
        (λ resp. some (rewrite_response_id resp id))
      ≡ (if b then some (rewrite_response_id response id) else none)
on_option-if true response id = refl
on_option-if false response id = refl

-- A call of `cache_store`.
pub record Stored : Type 0 where
  pub at : ℕ
  pub way : Text
  pub query : DnsQuery
  pub response : List ℕ

unfoldable pub store_all : Forwarder → List Stored → Shared → Shared
unfolding cache_store
store_all fw [] s = s
store_all fw (x ∷ xs) s = store_all fw xs (cache_store fw x.at x.way x.query x.response s)

-- These stores are for another way out, or for a query with another key.
abbrev pub Spare : Text → CacheKey → List Stored → Type 0
Spare k key [] = Unit {0}
Spare k key (x ∷ xs) =
    ((text_eq k x.way ≡ false) ⊎ (Cache.key_eq key (key_of_query x.query) ≡ false)) × Spare k key xs

-- What a `get` finds stays, and the cache gets at most one entry more.
abbrev Keeps : ℕ → CacheKey → DnsCache → DnsCache → Type 0
Keeps now key c c' = (Cache.get now key c' ≡ Cache.get now key c) × (length c' ≤ suc (length c))

same_cache : (now : ℕ) (key : CacheKey) (c c' : DnsCache) → c' ≡ c → Keeps now key c c'
same_cache now key c c' e = (ap (Cache.get now key) e, omega (arith, ap (λ d. length d) e))

make_room-room : (t : ℕ) (c : DnsCache) → length c < dns_cache_max → Cache.make_room t c ≡ c
unfolding Cache.make_room
make_room-room t c h = ground (arith, h)

insert-Keeps :
    (now t : ℕ) (key other : CacheKey) (response : List ℕ) (ttl : ℕ) (c : DnsCache)
    → Cache.key_eq key other ≡ false
    → length c < dns_cache_max
    → Keeps now key c (Cache.insert t other response ttl c)
insert-Keeps now t key other response ttl c differ room = (
  elim (Bool-cases (ttl == 0)) [
    | inl zero_ttl ↦ ap (Cache.get now key) (get-insert_zero t other response ttl c zero_ttl)
    | inr kept ↦
        get-insert_other now t key other response ttl c differ kept
        ∙ ap (Cache.get now key) (make_room-room t c room)
  ],
  length-insert t other response ttl c,
)

store_read-Keeps :
    (now t : ℕ) (k : Text) (key : CacheKey) (q : DnsQuery) (response : List ℕ) (s : Shared)
    (r : Read ℕ)
    → Cache.key_eq key (key_of_query q) ≡ false
    → length (get_cache k s.caches) < dns_cache_max
    → Keeps now key (get_cache k s.caches) (get_cache k (store_read t k q response s r).caches)
unfolding store_read
store_read-Keeps now t k key q response s (value ttl) differ room =
    let c : DnsCache = get_cache k s.caches in
    subst (Keeps now key c)
      (sym (get_cache-set_cache k (Cache.insert t (key_of_query q) response ttl c) s.caches))
      (insert-Keeps now t key (key_of_query q) response ttl c differ room)
store_read-Keeps now t k key q response s nothing differ room = same_cache now key _ _ refl
store_read-Keeps now t k key q response s (crashed e) differ room = same_cache now key _ _ refl

cache_store-Keeps :
    (fw : Forwarder) (now t : ℕ) (k l : Text) (key : CacheKey) (q : DnsQuery) (response : List ℕ)
    (s : Shared)
    → (text_eq k l ≡ false) ⊎ (Cache.key_eq key (key_of_query q) ≡ false)
    → length (get_cache k s.caches) < dns_cache_max
    → Keeps now key (get_cache k s.caches) (get_cache k (cache_store fw t l q response s).caches)
unfolding cache_store
cache_store-Keeps fw now t k l key q response s (inl other) room =
    same_cache now key (get_cache k s.caches) (get_cache k (cache_store fw t l q response s).caches)
      (store_other fw t k l q response s other)
cache_store-Keeps fw now t k l key q response s (inr differ) room =
    elim (Bool-cases (text_eq k l)) [
      | inl same ↦
          subst
            (λ l.
              Keeps now key (get_cache k s.caches)
                (get_cache k (cache_store fw t l q response s).caches))
            ((text_eq_iff k l).0 same)
            (elim (Bool-cases fw.enable_cache) [
              | inl on ↦ rw on (
                  store_read-Keeps now t k key q response s (parse_response_min_ttl response) differ
                    room)
              | inr off ↦
                  rw off (same_cache now key (get_cache k s.caches) (get_cache k s.caches) refl)
            ])
      | inr other ↦
          same_cache now key (get_cache k s.caches)
            (get_cache k (cache_store fw t l q response s).caches)
            (store_other fw t k l q response s other)
    ]

get-store_all :
    (fw : Forwarder) (now : ℕ) (k : Text) (key : CacheKey) (xs : List Stored) (s : Shared)
    → Spare k key xs
    → length (get_cache k s.caches) + length xs ≤ dns_cache_max
    → Cache.get now key (get_cache k (store_all fw xs s).caches)
      ≡ Cache.get now key (get_cache k s.caches)
unfolding store_all
get-store_all fw now k key [] s h room = refl
get-store_all fw now k key (x ∷ xs) s h room =
    let one =
      cache_store-Keeps fw now x.at k x.way key x.query x.response s h.0 (omega (arith, room)) in
    get-store_all fw now k key xs (cache_store fw x.at x.way x.query x.response s) h.1
      (omega (arith, room, one.1))
    ∙ one.0

store-length :
    (fw : Forwarder) (t : ℕ) (k : Text) (q : DnsQuery) (response : List ℕ) (s : Shared) (ttl : ℕ)
    → fw.enable_cache ≡ true
    → parse_response_min_ttl response ≡ value ttl
    → length (get_cache k (cache_store fw t k q response s).caches)
      ≤ suc (length (get_cache k s.caches))
store-length fw t k q response s ttl on e =
    subst (λ c. length c ≤ suc (length (get_cache k s.caches)))
      (sym (store_with fw t k q response s ttl on e))
      (length-insert t (key_of_query q) response ttl (get_cache k s.caches))

-- With the cache enabled, a response with a TTL other than 0 is stored for a query; then any responses are
-- stored for other ways out, or for queries that differ in name, type or EDNS bits, no more than
-- the cache of this way out still has room for. In the state after that, a query of the same name,
-- type and EDNS bits on the same way out is answered with the response, under that query's ID, until the
-- TTL has run, and from then on finds nothing.
pub cached_lookup-cache_store :
    (fw : Forwarder) (k : Text) (q later : DnsQuery) (response : List ℕ) (xs : List Stored)
    (s : Shared) (ttl t now : ℕ)
    → fw.enable_cache ≡ true
    → parse_response_min_ttl response ≡ value ttl
    → (ttl == 0) ≡ false
    → key_of_query later ≡ key_of_query q
    → Spare k (key_of_query q) xs
    → length (get_cache k s.caches) + length xs < dns_cache_max
    → cached_lookup fw now k later (store_all fw xs (cache_store fw t k q response s)) ≡ (
        if ltb now (t + ttl * nanos_per_sec)
        then some (rewrite_response_id response later.id)
        else none)
cached_lookup-cache_store fw k q later response xs s ttl t now on e h same spare room =
    let in_time = ltb now (t + ttl * nanos_per_sec) in
    let stored : Shared = cache_store fw t k q response s in
    let longer = store-length fw t k q response s ttl on e in
    let found =
      ap (λ key. Cache.get now key (get_cache k (store_all fw xs stored).caches)) same
      ∙ get-store_all fw now k (key_of_query q) xs stored spare (omega (arith, room, longer))
      ∙ ap (Cache.get now (key_of_query q)) (store_with fw t k q response s ttl on e)
      ∙ get-insert_same now t (key_of_query q) response ttl (get_cache k s.caches) h in
    lookup_with fw now k later (store_all fw xs stored) (if in_time then some response else none) on
      found
    ∙ on_option-if in_time response later.id
