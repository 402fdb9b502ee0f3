-- ===== src/Dns/Forwarder/Flights.antt =====
-- The queries in flight.
use dae_rs.Prelude.{
  ℕ, ◌≡◌, refl, ap, ◌∙◌, Bool, true, false, List, [], ◌∷◌, Option, none, some, if◌then◌else◌, arith,
  Bool-cases, inl, inr,
}
use dae_rs.Text.{Text, text}
use dae_rs.Dns.Read.{Read, value, nothing, crashed}
use dae_rs.Dns.Wire.{DnsQuery}
use dae_rs.Dns.Ttl.{parse_response_min_ttl}
use dae_rs.Dns.Forwarder.{
  Forwarder, Shared, Answer, FlightKey, on_option, cached_lookup, store_read, cache_store,
  same_flight, is_inflight, remove_flight, begin_inflight, end_inflight, pick_direct_server,
  flight_of, fetch_direct, resolve_direct,
}

is_inflight-remove_flight :
    (f : FlightKey) (fs : List FlightKey) → is_inflight f (remove_flight f fs) ≡ false
unfolding is_inflight remove_flight
is_inflight-remove_flight f [] = refl
is_inflight-remove_flight f (g ∷ gs) = elim (Bool-cases (same_flight f g)) [
  | inl same ↦ rw same (is_inflight-remove_flight f gs)
  | inr differ ↦ ground (arith, differ, is_inflight-remove_flight f gs)
]

store_flights :
    (fw : Forwarder) (now : ℕ) (k : Text) (q : DnsQuery) (response : List ℕ) (s : Shared)
    → (cache_store fw now k q response s).inflight ≡ s.inflight
unfolding cache_store store_read
store_flights fw now k q response s = if_same fw.enable_cache (parse_response_min_ttl response)
  where
    read_same : (r : Read ℕ) → (store_read now k q response s r).inflight ≡ s.inflight
    read_same (value ttl) = refl
    read_same nothing = refl
    read_same (crashed e) = refl

    if_same :
        (b : Bool) (r : Read ℕ)
        → (if b then store_read now k q response s r else s).inflight ≡ s.inflight
    if_same true r = read_same r
    if_same false r = refl

module _ (f : FlightKey) where
  abbrev Landed : Shared × Answer → Type 0
  Landed r = is_inflight f r.0.inflight ≡ false

  Landed-on_option :
      {A : Type 0} (o : Option A) (r : Shared × Answer) (g : A → Shared × Answer)
      → Landed r
      → ((a : A) → Landed (g a))
      → Landed (on_option o r g)
  Landed-on_option none r g h k = h
  Landed-on_option (some a) r g h k = k a

module _ (forward_direct : List ℕ → ℕ → Option (List ℕ))
    (forward_via_proxy : Text → List ℕ → ℕ → Option (List ℕ)) (system_dns : List ℕ)
    (wait : Shared → Shared) (fw : Forwarder) (now : ℕ) (q : DnsQuery) (query : List ℕ) where
  abbrev flight : FlightKey
  flight = flight_of forward_direct forward_via_proxy system_dns wait fw now q

  fetch_direct-Landed :
      (server : ℕ) (s : Shared)
      → Landed flight
          (fetch_direct forward_direct forward_via_proxy system_dns wait fw now q query server s)
  unfolding fetch_direct end_inflight
  fetch_direct-Landed server s =
      Landed-on_option flight (forward_direct query server) _ _
        (is_inflight-remove_flight flight s.inflight)
        λ response.
          ap (is_inflight flight)
            (store_flights fw now (text "direct") q response (end_inflight flight s))
          ∙ is_inflight-remove_flight flight s.inflight

  -- A direct query whose key is not in flight before leaves it not in flight: whether it is answered from
  -- the cache, forwarded, or fails, so that no later query waits for it.
  pub resolve_direct-Landed :
      (s : Shared)
      → is_inflight flight s.inflight ≡ false
      → Landed flight
          (resolve_direct forward_direct forward_via_proxy system_dns wait fw now q query s)
  unfolding resolve_direct begin_inflight
  resolve_direct-Landed s free =
      Landed-on_option flight (pick_direct_server system_dns fw) _ _ free λ server.
        Landed-on_option flight (cached_lookup fw now (text "direct") q s) _ _
          (rw free (fetch_direct-Landed server (record s { inflight = flight ∷ s.inflight })))
          λ resp. free
