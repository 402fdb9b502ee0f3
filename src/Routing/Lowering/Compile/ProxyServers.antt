-- ===== src/Routing/Lowering/Compile/ProxyServers.antt =====
-- The entries that `compile_rules` puts in front for the proxy servers, as the userspace matcher reads
-- them.
use dae_rs.Prelude.{
  ℕ, ◌^◌, ◌≡◌, ◌<◌, refl, sym, ap, subst, ◌∙◌, Bool, false, ◌||◌, List, [], ◌∷◌, ◌++◌, Option, some,
  map, if◌then◌else◌, ◌==◌, get_elem?, drop, arith,
}
use dae_rs.Text.{Text}
use dae_rs.Text.Equality.{any}
use dae_rs.Ruleset.IpSet.{IpNet, IpAddr, addr4, addr6}
use dae_rs.Ruleset.IpSet.Laws.{AllNets, scan, net_contains, same_prefix}
use dae_rs.Routing.MatchSet.{MatchSet, index_of, port_start_of, port_end_of}
use dae_rs.Routing.MatchSet.Outbound as OutboundId
use dae_rs.Routing.Matcher.{
  CompiledRouting, RoutingParams, RoutingResult, from_compiled, eval_match, match_routing, walk,
  cleared,
}
use dae_rs.Routing.Matcher.Evaluation.{eval_match-scan}
use dae_rs.Routing.Matcher.Rules.{walk-rule}
use dae_rs.Routing.Expression.{ok}
use dae_rs.Routing.Lowering.Compile.{
  RuleSets, ip_ms, port_ms, proxy_cidr, proxy_entries, compile_rules,
}
use dae_rs.Dns.DomainRoutes.{NormalizedProgram, from_config}
use dae_rs.Routing.Lowering.Tries.{Tries}
use dae_rs.Routing.Lowering.Tries.Laws.{get_elem?-Extends}
use dae_rs.Routing.Lowering.Compile.Steps.{
  Steps, compile_program-Steps, lowered-GoodStep, bind_ok, ok_injective, checked_ok,
  proxy_trie-cons, first_trie,
}

unfoldable pub addr_eq : IpAddr → IpAddr → Bool
addr_eq (addr4 a) (addr4 b) = a == b
addr_eq (addr6 a) (addr6 b) = a == b
addr_eq (addr4 a) (addr6 b) = false
addr_eq (addr6 a) (addr4 b) = false

-- Addresses are 32 and 128 bits wide.
abbrev pub IsAddr : IpAddr → Type 0
IsAddr (addr4 a) = a < 2 ^ 32
IsAddr (addr6 a) = a < 2 ^ 128

abbrev pub AllAddrs : List IpAddr → Type 0
AllAddrs [] = Unit {0}
AllAddrs (a ∷ l) = IsAddr a × AllAddrs l

AllNets-AllAddrs : (l : List IpAddr) → AllAddrs l → AllNets (map proxy_cidr l)
AllNets-AllAddrs [] h = tt
AllNets-AllAddrs (addr4 a ∷ l) h =
    ((omega arith, omega arith, h.0, omega arith), AllNets-AllAddrs l h.1)
AllNets-AllAddrs (addr6 a ∷ l) h =
    ((omega arith, omega arith, h.0, omega arith), AllNets-AllAddrs l h.1)

net_contains-addr_eq : (a ip : IpAddr) → net_contains (proxy_cidr a) ip ≡ addr_eq ip a
unfolding net_contains addr_eq same_prefix
net_contains-addr_eq (addr4 a) (addr4 b) = ground arith
net_contains-addr_eq (addr6 a) (addr6 b) = ground arith
net_contains-addr_eq (addr4 a) (addr6 b) = refl
net_contains-addr_eq (addr6 a) (addr4 b) = refl

scan-any : (l : List IpAddr) (ip : IpAddr) → scan (map proxy_cidr l) ip ≡ any (addr_eq ip) l
unfolding scan any
scan-any [] ip = refl
scan-any (a ∷ l) ip = rw (net_contains-addr_eq a ip, scan-any l ip)

abbrev pub to_direct : RoutingResult
to_direct = record { outbound = OutboundId.direct; mark = 0; must = false }

module _ (regex_new : Text → Option (Text → Bool)) (c : CompiledRouting) (p : RoutingParams) where
  abbrev evaluates : MatchSet → Bool
  evaluates ms = eval_match regex_new (from_compiled c) ms p

  -- What the matcher makes of the entries.
  abbrev pub routed : List MatchSet → RoutingResult
  routed l = walk evaluates c.fallback cleared l

  port_ms_eval : (port : ℕ) → p.dst_port ≡ some port → evaluates port_ms ≡ (port == 53)
  unfolding eval_match port_start_of port_end_of
  port_ms_eval port h = rw h (ground arith)

  ip_ms_eval :
      (cidrs : List IpNet) (ip : IpAddr)
      → p.dst_ip ≡ some ip
      → get_elem? c.lpm_tries 0 ≡ some cidrs
      → AllNets cidrs
      → evaluates (ip_ms 0) ≡ scan cidrs ip
  unfolding index_of
  ip_ms_eval cidrs ip h e w = eval_match-scan regex_new c (ip_ms 0) p cidrs ip refl h e w

  front_walk :
      (a b : Bool) (rest : List MatchSet)
      → evaluates (ip_ms 0) ≡ a
      → evaluates port_ms ≡ b
      → routed (ip_ms 0 ∷ port_ms ∷ rest) ≡ (if a || b then routed rest else to_direct)
  front_walk a b rest h k =
      walk-rule evaluates c.fallback false (ip_ms 0 ∷ []) port_ms rest (refl, tt) refl
      ∙ (unfold any in ground (arith, h, k))

-- The trie at index 0 and the first two entries are those of the proxy servers.
abbrev HasFront : List IpNet → CompiledRouting → Type 0
HasFront cidrs c =
    (get_elem? c.lpm_tries 0 ≡ some cidrs)
    × (c.match_sets ≡ ip_ms 0 ∷ port_ms ∷ drop 2 c.match_sets)

module _ (parse_net : Text → Option IpNet) (cache : Option RuleSets) (nodes groups : List Text)
    (q : IpAddr) (qs : List IpAddr) where
  HasFront-Steps :
      (program : NormalizedProgram) (c : CompiledRouting)
      → Steps parse_net cache nodes groups (q ∷ qs) program c
      → HasFront (map proxy_cidr (q ∷ qs)) c
  HasFront-Steps program c st =
      let cidrs = map proxy_cidr (q ∷ qs) in
      let front : ◌≡◌ {A = Tries × List MatchSet} (first_trie cidrs, proxy_entries 0) st.proxy =
        ok_injective _ st.proxy
          (sym (proxy_trie-cons (proxy_cidr q) (map proxy_cidr qs)) ∙ st.proxy_eq) in
      let step = lowered-GoodStep parse_net cache nodes groups (q ∷ qs) program c st in
      let kept = get_elem?-Extends st.proxy.0 st.lowered.0.tries 0 cidrs step.1 (
        subst (λ (r : Tries × List MatchSet). get_elem? r.0.lpm_tries 0 ≡ some cidrs) front refl) in
      let fits = checked_ok _ c st.checked_eq in
      subst (HasFront cidrs) fits.0 (
        kept,
        subst
            (λ (r : Tries × List MatchSet).
              (l : List MatchSet) → r.1 ++ l ≡ ip_ms 0 ∷ port_ms ∷ drop 2 (r.1 ++ l))
            front (λ l. refl) _,
      )

  routed_front :
      (regex_new : Text → Option (Text → Bool)) (c : CompiledRouting) (p : RoutingParams)
      (ip : IpAddr) (port : ℕ)
      → HasFront (map proxy_cidr (q ∷ qs)) c
      → AllAddrs (q ∷ qs)
      → p.dst_ip ≡ some ip
      → p.dst_port ≡ some port
      → match_routing regex_new (from_compiled c) p ≡ (
          if any (addr_eq ip) (q ∷ qs) || port == 53
          then routed regex_new c p (drop 2 c.match_sets)
          else to_direct)
  unfolding match_routing from_compiled
  routed_front regex_new c p ip port f w h k =
      ap (routed regex_new c p) f.1
      ∙ front_walk regex_new c p _ (port == 53) (drop 2 c.match_sets)
          (ip_ms_eval regex_new c p (map proxy_cidr (q ∷ qs)) ip h f.0 (AllNets-AllAddrs (q ∷ qs) w)
            ∙ scan-any (q ∷ qs) ip)
          (port_ms_eval regex_new c p port k)

  -- Where a compilation with proxy servers succeeds, the userspace matcher takes the rule that is put in front
  -- for them for the other addresses: a connection with a destination that is no proxy server's address
  -- and a port other than 53 goes direct, whatever the rules say; only to a proxy server or to port 53
  -- are the entries behind the first two read.
  pub match_routing-compile_rules :
      (regex_new : Text → Option (Text → Bool)) (rules : List (Text × Text)) (fallback : Text)
      (c : CompiledRouting) (p : RoutingParams) (ip : IpAddr) (port : ℕ)
      → compile_rules parse_net cache nodes groups (q ∷ qs) rules fallback ≡ ok c
      → AllAddrs (q ∷ qs)
      → p.dst_ip ≡ some ip
      → p.dst_port ≡ some port
      → match_routing regex_new (from_compiled c) p ≡ (
          if any (addr_eq ip) (q ∷ qs) || port == 53
          then routed regex_new c p (drop 2 c.match_sets)
          else to_direct)
  unfolding compile_rules
  match_routing-compile_rules regex_new rules fallback c p ip port e w h k =
      let program = bind_ok (from_config rules fallback) _ c e in
      let st = compile_program-Steps parse_net cache nodes groups (q ∷ qs) program.0 c program.2 in
      routed_front regex_new c p ip port (HasFront-Steps program.0 c st) w h k
