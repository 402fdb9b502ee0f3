-- ===== src/Tests/Forwarder.antt =====
-- Instances of the theorems at concrete inputs: `DnsForwarder` of control/src/net/dns.rs.
use dae_rs.Prelude.{
  ℕ, ◌≡◌, ◌+◌, ◌*◌, refl, ap, subst, Bool, true, false, List, [], ◌∷◌, ◌++◌, Option, none, some,
  ltb, if◌then◌else◌, inl, inr, arith,
}
use dae_rs.Text.{Text, text, text_eq}
use dae_rs.Dns.Wire.{DnsQuery}
use dae_rs.Dns.Ttl.{parse_response_min_ttl}
use dae_rs.Dns.Response.{rewrite_response_id}
use dae_rs.Dns.Cache.{key_eq, nanos_per_sec}
use dae_rs.Dns.Forwarder.{
  DnsOutbound, direct, block, group, Forwarder, Shared, get_cache, cached_lookup, cache_store,
  is_inflight, group_key, flight_of, resolve_direct, route_domain, resolve,
}
use dae_rs.Text.{is_empty}
use dae_rs.Ruleset.Reference.{normalize_qname}
use dae_rs.Routing.Expression.{NormalizedRule}
use dae_rs.Dns.DomainRoutes.{rule_patterns, domain_routes}
use dae_rs.Dns.DomainRoutes.FirstMatch.{first_match, route_domain-domain_routes}
use dae_rs.Dns.Forwarder.Isolation.{resolve-isolated}
use dae_rs.Dns.Forwarder.CacheHits.{Stored, store_all, cached_lookup-cache_store}
use dae_rs.Dns.Forwarder.Flights.{resolve_direct-Landed}

abbrev question : List ℕ
question = 1 ∷ 97 ∷ 0 ∷ 0 ∷ 1 ∷ 0 ∷ 1 ∷ []

abbrev query : List ℕ
query = 0x12 ∷ 0x34 ∷ 1 ∷ 0 ∷ 0 ∷ 1 ∷ 0 ∷ 0 ∷ 0 ∷ 0 ∷ 0 ∷ 0 ∷ question

-- One address, for 60 seconds.
abbrev response : List ℕ
response =
    (0x12 ∷ 0x34 ∷ 0x81 ∷ 0x80 ∷ 0 ∷ 1 ∷ 0 ∷ 1 ∷ 0 ∷ 0 ∷ 0 ∷ 0 ∷ question)
    ++ (0xc0 ∷ 12 ∷ 0 ∷ 1 ∷ 0 ∷ 1 ∷ 0 ∷ 0 ∷ 0 ∷ 60 ∷ 0 ∷ 4 ∷ 10 ∷ 0 ∷ 0 ∷ 1 ∷ [])

abbrev asked : DnsQuery
asked = record { id = 0x1234; qname = text "a"; qtype = 1; has_edns = false; do_bit = false }

-- Every name goes to the group `a`.
abbrev to_group : Forwarder
to_group = record {
  proxy_dns_servers = 1 ∷ [];
  direct_dns_servers = 2 ∷ [];
  direct_use_system_dns = false;
  enable_cache = true;
  routes = [];
  group_dialers = text "a" ∷ [];
  fallback = group (text "a");
}

abbrev forward : List ℕ → ℕ → Option (List ℕ)
forward _ server = some response

abbrev via_proxy : Text → List ℕ → ℕ → Option (List ℕ)
via_proxy g _ server = some response

abbrev idle : Shared → Shared
idle s = s

abbrev fresh : Shared
fresh = record { caches = []; inflight = [] }

abbrev no_regex : Text → Option (Text → Bool)
no_regex p = none

abbrev name_of : DnsOutbound → Text
name_of direct = []
name_of block = []
name_of (group g) = g

resolve-isolated_example :
    get_cache
      (text "group:b")
      (resolve forward via_proxy [] idle to_group 5 no_regex query fresh).0.caches
    ≡ get_cache (text "group:b") fresh.caches
unfolding text_eq route_domain
resolve-isolated_example =
    resolve-isolated forward via_proxy [] idle to_group 5 (text "group:b") refl (λ s. refl) no_regex
      query fresh
      (λ q g e r. subst (λ x. text_eq (text "group:b") (group_key x) ≡ false) (ap name_of r) refl)

-- Stored in between: another type on the same way out, and the same query on another way out.
abbrev between : List Stored
between =
    record { at = 6; way = text "direct"; query = record asked { qtype = 28 }; response = response }
    ∷ record { at = 7; way = text "group:b"; query = asked; response = response }
    ∷ []

cached_lookup-cache_store_example :
    cached_lookup to_group 30
      (text "direct")
      (record asked { id = 7 })
      (store_all to_group between (cache_store to_group 5 (text "direct") asked response fresh))
    ≡ (if ltb 30 (5 + 60 * nanos_per_sec) then some (rewrite_response_id response 7) else none)
unfolding parse_response_min_ttl get_cache text_eq key_eq
cached_lookup-cache_store_example =
    cached_lookup-cache_store to_group (text "direct") asked (record asked { id = 7 }) response
      between fresh 60 5 30 refl refl refl refl (inr refl, (inl refl, tt)) (omega arith)

resolve_direct-Landed_example :
    is_inflight
      (flight_of forward via_proxy [] idle to_group 5 asked)
      (resolve_direct forward via_proxy [] idle to_group 5 asked query fresh).0.inflight
    ≡ false
unfolding is_inflight
resolve_direct-Landed_example =
    resolve_direct-Landed forward via_proxy [] idle to_group 5 asked query fresh refl

-- A rule by suffix, one by a set that is not loaded, and one by name.
abbrev rules : List NormalizedRule
rules =
    domain_rule (text "suffix:example.com") (text "direct")
    ∷ domain_rule (text "set:ads") (text "block")
    ∷ domain_rule (text "full:a.org") (text "a")
    ∷ []
  where
    domain_rule : Text → Text → NormalizedRule
    domain_rule param name = record {
      and_functions =
          record { name = text "domain"; negated = false; raw_params = param ∷ [] } ∷ [];
      outbound = record { name = name; mark = 0; must = false };
    }

route_domain-domain_routes_example :
    route_domain no_regex (domain_routes none rules) block (text "A.org.")
    ≡ first_match none no_regex block (text "A.org.") rules
unfolding is_empty normalize_qname rule_patterns
route_domain-domain_routes_example =
    route_domain-domain_routes none no_regex block (text "A.org.") rules refl
      ((tt, tt), (tt, ((tt, tt), tt)))

-- `!domain(full:a.org) && dport(443) -> a` sends the name that it excludes to `a`.
abbrev excluding : NormalizedRule
excluding = record {
  and_functions =
      record { name = text "domain"; negated = true; raw_params = text "full:a.org" ∷ [] }
      ∷ record { name = text "dport"; negated = false; raw_params = text "443" ∷ [] }
      ∷ [];
  outbound = record { name = text "a"; mark = 0; must = false };
}

negated_rule_test :
    route_domain no_regex (domain_routes none (excluding ∷ [])) block (text "a.org")
    ≡ group (text "a")
unfolding route_domain domain_routes
negated_rule_test = refl
