-- ===== src/Dns/Forwarder.antt =====
-- control/src/net/dns.rs: `DnsForwarder::resolve` and what it calls. The sockets, the dialers and the
-- system's resolvers are parameters; so is what other tasks do while this one waits. The state is what
-- the tasks share: a cache for each way out, and the keys of the queries in flight. The address of a server
-- is a number that stands for it, and an error of an upstream is `none`.
use dae_rs.Prelude.{
  ℕ, Bool, true, false, not, ◌&&◌, ◌||◌, List, [], ◌∷◌, ◌++◌, Option, none, some, ◌==◌,
  if◌then◌else◌,
}
use dae_rs.Text.{Text, text, text_eq}
use dae_rs.Ruleset.DomainSet
use dae_rs.Ruleset.DomainSet.{CompiledDomainSet}
use dae_rs.Routing.Action.{parse_action}
use dae_rs.Routing.Expression.{Parsed, ok, err, ◌>>=◌}
use dae_rs.Dns.Read.{Read, value, nothing, crashed}
use dae_rs.Dns.Wire.{DnsQuery, parse_dns_query}
use dae_rs.Dns.Ttl.{parse_response_min_ttl}
use dae_rs.Dns.Response.{rewrite_response_id, build_error_response}
use dae_rs.Dns.Cache
use dae_rs.Dns.Cache.{CacheKey, DnsCache, key_eq}
pub mod Isolation
pub mod CacheHits
pub mod Flights

pub data DnsOutbound : Type 0 where
  direct block : DnsOutbound
  group : Text → DnsOutbound

pub record DnsDomainRoute : Type 0 where
  pub matcher : CompiledDomainSet
  pub outbound : DnsOutbound

unfoldable pub outbound_of : Text → DnsOutbound
unfolding text_eq
outbound_of name =
    if text_eq name (text "direct")
    then direct
    else if text_eq name (text "block")
    then block
    else group name

unfoldable pub dns_outbound_from_action : Text → Parsed DnsOutbound
unfolding parse_action outbound_of
dns_outbound_from_action action = do o ← parse_action action; ok (outbound_of o.name)

pub record FlightKey : Type 0 where
  pub outbound : Text
  pub key : CacheKey

pub record Forwarder : Type 0 where
  pub proxy_dns_servers : List ℕ
  pub direct_dns_servers : List ℕ
  pub direct_use_system_dns : Bool
  pub enable_cache : Bool
  pub routes : List DnsDomainRoute
  pub group_dialers : List Text
  pub fallback : DnsOutbound

pub record Shared : Type 0 where
  pub caches : List (Text × DnsCache)
  pub inflight : List FlightKey

pub data Answer : Type 0 where
  answered : List ℕ → Answer
  failed : Answer

-- The cache of a way out; one that is missing is made empty.
unfoldable pub get_cache : Text → List (Text × DnsCache) → DnsCache
unfolding text_eq
get_cache k [] = []
get_cache k (c ∷ cs) = let rest = get_cache k cs in if text_eq k c.0 then c.1 else rest

unfoldable pub set_cache : Text → DnsCache → List (Text × DnsCache) → List (Text × DnsCache)
unfolding text_eq
set_cache k d [] = (k, d) ∷ []
set_cache k d (c ∷ cs) =
    let rest = set_cache k d cs in if text_eq k c.0 then (k, d) ∷ cs else c ∷ rest

abbrev pub key_of_query : DnsQuery → CacheKey
key_of_query q = record {
  qname = q.qname;
  qtype = q.qtype;
  has_edns = q.has_edns;
  do_bit = q.do_bit;
}

-- `match` on an option: what it is without a value, and with one.
abbrev pub on_option {ℓ κ} : {A : Type ℓ} {B : Type κ} → Option A → B → (A → B) → B
on_option none b f = b
on_option (some a) b f = f a

unfoldable pub cached_lookup : Forwarder → ℕ → Text → DnsQuery → Shared → Option (List ℕ)
unfolding get_cache Cache.get rewrite_response_id
cached_lookup fw now k q s =
    if fw.enable_cache
    then on_option (Cache.get now (key_of_query q) (get_cache k s.caches)) none
        (λ resp. some (rewrite_response_id resp q.id))
    else none

unfoldable pub store_read : ℕ → Text → DnsQuery → List ℕ → Shared → Read ℕ → Shared
unfolding get_cache set_cache Cache.insert
store_read now k q response s (value ttl) = record s {
  caches =
      set_cache k (Cache.insert now (key_of_query q) response ttl (get_cache k s.caches)) s.caches;
}
store_read now k q response s nothing = s
store_read now k q response s (crashed e) = s

unfoldable pub cache_store : Forwarder → ℕ → Text → DnsQuery → List ℕ → Shared → Shared
unfolding store_read parse_response_min_ttl
cache_store fw now k q response s =
    if fw.enable_cache then store_read now k q response s (parse_response_min_ttl response) else s

abbrev pub same_flight : FlightKey → FlightKey → Bool
same_flight a b = text_eq a.outbound b.outbound && key_eq a.key b.key

unfoldable pub is_inflight : FlightKey → List FlightKey → Bool
unfolding text_eq key_eq
is_inflight k [] = false
is_inflight k (f ∷ fs) = same_flight k f || is_inflight k fs

unfoldable pub remove_flight : FlightKey → List FlightKey → List FlightKey
unfolding text_eq key_eq
remove_flight k [] = []
remove_flight k (f ∷ fs) =
    let rest = remove_flight k fs in if same_flight k f then rest else f ∷ rest

-- Whether this call is the creator, and the keys then in flight.
unfoldable pub begin_inflight : FlightKey → Shared → Bool × Shared
unfolding is_inflight
begin_inflight k s =
    if is_inflight k s.inflight then (false, s) else (true, record s { inflight = k ∷ s.inflight })

unfoldable pub end_inflight : FlightKey → Shared → Shared
unfolding remove_flight
end_inflight k s = record s { inflight = remove_flight k s.inflight }

abbrev pub first_of : List ℕ → Option ℕ
first_of [] = none
first_of (a ∷ rest) = some a

unfoldable pub pick_direct_server : List ℕ → Forwarder → Option ℕ
pick_direct_server system_dns fw = elim (first_of fw.direct_dns_servers) [
  | some addr ↦ some addr
  | none ↦ if fw.direct_use_system_dns then first_of system_dns else none
]

abbrev pub mem_name : Text → List Text → Bool
mem_name g [] = false
mem_name g (h ∷ hs) = text_eq g h || mem_name g hs

abbrev pub group_key : Text → Text
group_key g = text "group:" ++ g

module _ (regex_new : Text → Option (Text → Bool)) where
  unfoldable pub route_domain : List DnsDomainRoute → DnsOutbound → Text → DnsOutbound
  unfolding DomainSet.matches
  route_domain [] fallback qname = fallback
  route_domain (r ∷ rs) fallback qname =
      let rest = route_domain rs fallback qname in
      if DomainSet.matches regex_new r.matcher qname then r.outbound else rest

-- `forward_direct` and `forward_via_proxy`: a response, or an error.
module _ (forward_direct : List ℕ → ℕ → Option (List ℕ))
    (forward_via_proxy : Text → List ℕ → ℕ → Option (List ℕ)) (system_dns : List ℕ)
    (wait : Shared → Shared) (fw : Forwarder) (now : ℕ) where
  -- Back to the direct way out.
  unfoldable pub direct_fallback : DnsQuery → List ℕ → Shared → Shared × Answer
  unfolding pick_direct_server cache_store
  direct_fallback q query s =
      on_option (pick_direct_server system_dns fw) (s, failed)
        λ server.
          on_option (forward_direct query server) (s, failed)
            λ response. (cache_store fw now (text "direct") q response s, answered response)

  abbrev pub flight_of : DnsQuery → FlightKey
  flight_of q = record { outbound = text "direct"; key = key_of_query q }

  -- From the call of `forward_direct` on.
  unfoldable pub fetch_direct : DnsQuery → List ℕ → ℕ → Shared → Shared × Answer
  unfolding end_inflight cache_store
  fetch_direct q query server s =
      on_option (forward_direct query server) (end_inflight (flight_of q) s, failed)
        λ response. (
          cache_store fw now (text "direct") q response (end_inflight (flight_of q) s),
          answered response,
        )

  unfoldable pub resolve_direct : DnsQuery → List ℕ → Shared → Shared × Answer
  unfolding pick_direct_server cached_lookup begin_inflight fetch_direct
  resolve_direct q query s =
      on_option (pick_direct_server system_dns fw) (s, failed)
        λ server.
          on_option (cached_lookup fw now (text "direct") q s)
            (let begun = begin_inflight (flight_of q) s in
              if begun.0
              then fetch_direct q query server begun.1
              else on_option (cached_lookup fw now (text "direct") q (wait begun.1))
                  (fetch_direct q query server (wait begun.1))
                  λ resp. (wait begun.1, answered resp))
            λ resp. (s, answered resp)

  -- Behind the group's lock.
  unfoldable pub fetch_group : Text → ℕ → DnsQuery → List ℕ → Shared → Shared × Answer
  unfolding cached_lookup cache_store direct_fallback
  fetch_group g server q query s =
      on_option (cached_lookup fw now (group_key g) q s)
        (on_option (forward_via_proxy g query server) (direct_fallback q query s)
          λ response. (cache_store fw now (group_key g) q response s, answered response))
        λ resp. (s, answered resp)

  unfoldable pub resolve_group : Text → DnsQuery → List ℕ → Shared → Shared × Answer
  unfolding cached_lookup fetch_group direct_fallback text_eq
  resolve_group g q query s =
      on_option (cached_lookup fw now (group_key g) q s)
        (if mem_name g fw.group_dialers
          then on_option (first_of fw.proxy_dns_servers) (direct_fallback q query s)
              (λ server. fetch_group g server q query (wait s))
          else direct_fallback q query s)
        λ resp. (s, answered resp)

  unfoldable pub resolve_by : DnsOutbound → DnsQuery → List ℕ → Shared → Shared × Answer
  unfolding resolve_direct resolve_group build_error_response
  resolve_by block q query s = (s, answered (build_error_response query 3))
  resolve_by direct q query s = resolve_direct q query s
  resolve_by (group g) q query s = resolve_group g q query s

  unfoldable pub resolve : (Text → Option (Text → Bool)) → List ℕ → Shared → Shared × Answer
  unfolding parse_dns_query route_domain resolve_by
  resolve regex_new query s = elim (parse_dns_query query) [
    | value q ↦ resolve_by (route_domain regex_new fw.routes fw.fallback q.qname) q query s
    | nothing ↦ (s, failed)
    | crashed e ↦ (s, failed)
  ]
