-- ===== src/Dns/Forwarder/Isolation.antt =====
-- Which caches a query reads and writes.
use dae_rs.Prelude.{
  ℕ, ◌≡◌, refl, ◌∙◌, subst, Bool, true, false, List, [], ◌∷◌, Option, none, some, if◌then◌else◌,
  arith, Bool-cases, inl, inr,
}
use dae_rs.Text.{Text, text, text_eq}
use dae_rs.Text.Equality.{text_eq_iff, text_eq_refl}
use dae_rs.Dns.Read.{Read, value, nothing, crashed, Read-cases}
use dae_rs.Dns.Wire.{DnsQuery, parse_dns_query}
use dae_rs.Dns.Ttl.{parse_response_min_ttl}
use dae_rs.Dns.Cache
use dae_rs.Dns.Cache.{DnsCache, nanos_per_sec}
use dae_rs.Dns.Forwarder.{
  DnsOutbound, direct, block, group, Forwarder, Shared, get_cache, set_cache, on_option, store_read,
  Answer, key_of_query, cached_lookup, cache_store, begin_inflight, end_inflight,
  pick_direct_server, first_of, mem_name, group_key, route_domain, direct_fallback, FlightKey,
  is_inflight, flight_of, fetch_direct, resolve_direct, fetch_group, resolve_group, resolve_by,
  resolve,
}

get_cache-set_cache_other :
    (k l : Text) (d : DnsCache) (cs : List (Text × DnsCache))
    → text_eq k l ≡ false
    → get_cache k (set_cache l d cs) ≡ get_cache k cs
unfolding get_cache set_cache
get_cache-set_cache_other k l d [] h = rw h
get_cache-set_cache_other k l d (c ∷ cs) h = elim (Bool-cases (text_eq l c.0)) [
  | inl same ↦
      let at_l : text_eq k c.0 ≡ false =
        subst (λ x. text_eq k x ≡ false) ((text_eq_iff l c.0).0 same) h in
      rw (same, h, at_l)
  | inr differ ↦ ground (arith, differ, get_cache-set_cache_other k l d cs h)
]

pub get_cache-set_cache :
    (k : Text) (d : DnsCache) (cs : List (Text × DnsCache)) → get_cache k (set_cache k d cs) ≡ d
unfolding get_cache set_cache
get_cache-set_cache k d [] = rw (text_eq_refl k)
get_cache-set_cache k d (c ∷ cs) = elim (Bool-cases (text_eq k c.0)) [
  | inl same ↦ rw (same, text_eq_refl k)
  | inr differ ↦ ground (arith, differ, get_cache-set_cache k d cs)
]

-- Storing in another cache.
store_read_other :
    (now : ℕ) (k l : Text) (q : DnsQuery) (response : List ℕ) (s : Shared) (r : Read ℕ)
    → text_eq k l ≡ false
    → get_cache k (store_read now l q response s r).caches ≡ get_cache k s.caches
unfolding store_read
store_read_other now k l q response s (value ttl) h =
    get_cache-set_cache_other k l
      (Cache.insert now (key_of_query q) response ttl (get_cache l s.caches)) s.caches h
store_read_other now k l q response s nothing h = refl
store_read_other now k l q response s (crashed e) h = refl

pub store_other :
    (fw : Forwarder) (now : ℕ) (k l : Text) (q : DnsQuery) (response : List ℕ) (s : Shared)
    → text_eq k l ≡ false
    → get_cache k (cache_store fw now l q response s).caches ≡ get_cache k s.caches
unfolding cache_store
store_other fw now k l q response s h = if_same fw.enable_cache
  where
    if_same :
        (b : Bool)
        → get_cache k
            (if b
              then store_read now l q response s (parse_response_min_ttl response)
              else s).caches
          ≡ get_cache k s.caches
    if_same true = store_read_other now k l q response s (parse_response_min_ttl response) h
    if_same false = refl

module _ (k : Text) (d : DnsCache) where
  -- The cache `k` is `d`.
  abbrev Keeps : Shared × Answer → Type 0
  Keeps r = get_cache k r.0.caches ≡ d

  Keeps-on_option :
      {A : Type 0} (o : Option A) (r : Shared × Answer) (f : A → Shared × Answer)
      → Keeps r
      → ((a : A) → Keeps (f a))
      → Keeps (on_option o r f)
  Keeps-on_option none r f h g = h
  Keeps-on_option (some a) r f h g = g a

  Keeps-if : (b : Bool) (r t : Shared × Answer) → Keeps r → Keeps t → Keeps (if b then r else t)
  Keeps-if true r t h g = h
  Keeps-if false r t h g = g

module _ (forward_direct : List ℕ → ℕ → Option (List ℕ))
    (forward_via_proxy : Text → List ℕ → ℕ → Option (List ℕ)) (system_dns : List ℕ)
    (wait : Shared → Shared) (fw : Forwarder) (now : ℕ) (k : Text)
    (not_direct : text_eq k (text "direct") ≡ false)
    (waits : (s : Shared) → get_cache k (wait s).caches ≡ get_cache k s.caches) where
  direct_fallback-Keeps :
      (q : DnsQuery) (query : List ℕ) (s : Shared) (d : DnsCache)
      → get_cache k s.caches ≡ d
      → Keeps k d
          (direct_fallback forward_direct forward_via_proxy system_dns wait fw now q query s)
  unfolding direct_fallback
  direct_fallback-Keeps q query s d h =
      Keeps-on_option k d (pick_direct_server system_dns fw) _ _ h λ server.
        Keeps-on_option k d (forward_direct query server) _ _ h
          λ response. store_other fw now k (text "direct") q response s not_direct ∙ h

  fetch_group-Keeps :
      (g : Text) (server : ℕ) (q : DnsQuery) (query : List ℕ) (s : Shared) (d : DnsCache)
      → text_eq k (group_key g) ≡ false
      → get_cache k s.caches ≡ d
      → Keeps k d
          (fetch_group forward_direct forward_via_proxy system_dns wait fw now g server q query s)
  unfolding fetch_group
  fetch_group-Keeps g server q query s d other h =
      Keeps-on_option k d (cached_lookup fw now (group_key g) q s) _ _
        (Keeps-on_option k d (forward_via_proxy g query server) _ _
          (direct_fallback-Keeps q query s d h)
          λ response. store_other fw now k (group_key g) q response s other ∙ h)
        λ resp. h

  resolve_group-Keeps :
      (g : Text) (q : DnsQuery) (query : List ℕ) (s : Shared)
      → text_eq k (group_key g) ≡ false
      → Keeps k
          (get_cache k s.caches)
          (resolve_group forward_direct forward_via_proxy system_dns wait fw now g q query s)
  unfolding resolve_group
  resolve_group-Keeps g q query s other =
      let d = get_cache k s.caches in
      Keeps-on_option k d (cached_lookup fw now (group_key g) q s) _ _
        (Keeps-if k d (mem_name g fw.group_dialers) _ _
          (Keeps-on_option k d (first_of fw.proxy_dns_servers) _ _
            (direct_fallback-Keeps q query s d refl)
            λ server. fetch_group-Keeps g server q query (wait s) d other (waits s))
          (direct_fallback-Keeps q query s d refl))
        λ resp. refl

  begin_keeps :
      (f : FlightKey) (s : Shared)
      → get_cache k (begin_inflight f s).1.caches ≡ get_cache k s.caches
  unfolding begin_inflight
  begin_keeps f s = elim (Bool-cases (is_inflight f s.inflight)) [ inl e ↦ rw e | inr e ↦ rw e ]

  fetch_direct-Keeps :
      (q : DnsQuery) (query : List ℕ) (server : ℕ) (s : Shared) (d : DnsCache)
      → get_cache k s.caches ≡ d
      → Keeps k d
          (fetch_direct forward_direct forward_via_proxy system_dns wait fw now q query server s)
  unfolding fetch_direct end_inflight
  fetch_direct-Keeps q query server s d h =
      let f = flight_of forward_direct forward_via_proxy system_dns wait fw now q in
      Keeps-on_option k d (forward_direct query server) _ _ h λ response.
        store_other fw now k (text "direct") q response (end_inflight f s) not_direct ∙ h

  resolve_direct-Keeps :
      (q : DnsQuery) (query : List ℕ) (s : Shared)
      → Keeps k
          (get_cache k s.caches)
          (resolve_direct forward_direct forward_via_proxy system_dns wait fw now q query s)
  unfolding resolve_direct
  resolve_direct-Keeps q query s =
      let d = get_cache k s.caches in
      let begun =
        begin_inflight (flight_of forward_direct forward_via_proxy system_dns wait fw now q) s in
      let same : get_cache k begun.1.caches ≡ d =
        begin_keeps (flight_of forward_direct forward_via_proxy system_dns wait fw now q) s in
      let waited : get_cache k (wait begun.1).caches ≡ d = waits begun.1 ∙ same in
      Keeps-on_option k d (pick_direct_server system_dns fw) _ _ refl λ server.
        Keeps-on_option k d (cached_lookup fw now (text "direct") q s) _ _
          (Keeps-if k d begun.0 _ _ (fetch_direct-Keeps q query server begun.1 d same) (
            Keeps-on_option k d (cached_lookup fw now (text "direct") q (wait begun.1)) _ _
              (fetch_direct-Keeps q query server (wait begun.1) d waited) λ resp. waited))
          λ resp. refl

  -- A query changes no cache but that of the way out that its name is routed to, and the direct one: if
  -- `k` names neither, and other tasks leave the cache `k` alone while this one waits, it is the
  -- same after the query, whatever the upstreams answer.
  pub resolve-isolated :
      (regex_new : Text → Option (Text → Bool)) (query : List ℕ) (s : Shared)
      → ((q : DnsQuery) (g : Text)
          → parse_dns_query query ≡ value q
          → route_domain regex_new fw.routes fw.fallback q.qname ≡ group g
          → text_eq k (group_key g) ≡ false)
      → get_cache k
          (resolve forward_direct forward_via_proxy system_dns wait fw now regex_new query
            s).0.caches
        ≡ get_cache k s.caches
  unfolding resolve
  resolve-isolated regex_new query s other = elim (Read-cases (parse_dns_query query)) [
    | inl (q, e) ↦
        rw (e, resolve)
          (by_outbound q (route_domain regex_new fw.routes fw.fallback q.qname) (λ g. other q g e))
    | inr (inl e) ↦ rw (e, resolve)
    | inr (inr (x, e)) ↦ rw (e, resolve)
  ]
    where
      by_outbound :
          (q : DnsQuery) (o : DnsOutbound)
          → ((g : Text) → o ≡ group g → text_eq k (group_key g) ≡ false)
          → Keeps k
              (get_cache k s.caches)
              (resolve_by forward_direct forward_via_proxy system_dns wait fw now o q query s)
      by_outbound q direct h = resolve_direct-Keeps q query s
      by_outbound q block h = refl
      by_outbound q (group g) h = resolve_group-Keeps g q query s (h g refl)
