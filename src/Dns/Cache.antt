-- ===== src/Dns/Cache.antt =====
-- control/src/net/dns.rs: `DnsCache`. The hash map is a list of its entries with distinct keys;
-- `Instant::now()` is an argument, in nanoseconds, one reading for a call.
use dae_rs.Prelude.{
  ℕ, ◌+◌, ◌*◌, ◌<◌, Bool, true, false, not, ◌&&◌, List, [], ◌∷◌, Option, none, some, ltb, leb, ◌==◌,
  if◌then◌else◌, length,
}
use dae_rs.Text.{Text, text_eq}
pub mod History
pub mod Replay

abbrev pub dns_cache_max : ℕ
dns_cache_max = 2048

abbrev pub nanos_per_sec : ℕ
nanos_per_sec = 1_000_000_000

-- The name asked, the record type, `has_edns` and `do_bit`.
pub record CacheKey : Type 0 where
  pub qname : Text
  pub qtype : ℕ
  pub has_edns : Bool
  pub do_bit : Bool

pub record CacheEntry : Type 0 where
  pub response : List ℕ
  pub expires : ℕ

abbrev pub DnsCache : Type 0
DnsCache = List (CacheKey × CacheEntry)

unfoldable pub same_bit : Bool → Bool → Bool
same_bit true b = b
same_bit false b = not b

unfoldable pub key_eq : CacheKey → CacheKey → Bool
unfolding text_eq same_bit
key_eq k l =
    text_eq k.qname l.qname
    && (k.qtype == l.qtype)
    && same_bit k.has_edns l.has_edns
    && same_bit k.do_bit l.do_bit

unfoldable pub lookup : CacheKey → DnsCache → Option CacheEntry
unfolding key_eq
lookup key [] = none
lookup key (e ∷ es) = let rest = lookup key es in if key_eq key e.0 then some e.1 else rest

unfoldable pub remove : CacheKey → DnsCache → DnsCache
unfolding key_eq
remove key [] = []
remove key (e ∷ es) = let rest = remove key es in if key_eq key e.0 then rest else e ∷ rest

unfoldable pub retain : ℕ → DnsCache → DnsCache
retain now [] = []
retain now (e ∷ es) = let rest = retain now es in if ltb now e.1.expires then e ∷ rest else rest

abbrev pub unexpired : ℕ → Option CacheEntry → Option (List ℕ)
unexpired now none = none
unexpired now (some e) = if ltb now e.expires then some e.response else none

unfoldable pub get : ℕ → CacheKey → DnsCache → Option (List ℕ)
unfolding lookup
get now key cache = unexpired now (lookup key cache)

-- Room for one entry: the expired ones go, and, if that is not enough, all.
unfoldable pub make_room : ℕ → DnsCache → DnsCache
unfolding retain
make_room now cache =
    if leb dns_cache_max (length cache)
    then (if leb dns_cache_max (length (retain now cache)) then [] else retain now cache)
    else cache

unfoldable pub insert : ℕ → CacheKey → List ℕ → ℕ → DnsCache → DnsCache
unfolding make_room remove
insert now key response ttl cache =
    if ttl == 0
    then cache
    else (key, record { response = response; expires = now + ttl * nanos_per_sec })
      ∷ remove key (make_room now cache)
