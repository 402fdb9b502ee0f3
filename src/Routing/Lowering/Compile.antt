-- ===== src/Routing/Lowering/Compile.antt =====
-- control/src/routing/matcher.rs: `compile_rules`.
pub mod Steps
pub mod Indices
pub mod ProxyServers
pub mod DomainCounts
pub mod DomainIndices
pub mod IpRules
pub mod IpMatching
use dae_rs.Prelude.{
  ℕ, ◌+◌, Bool, true, false, not, List, [], ◌∷◌, ◌++◌, Option, none, some, map, if◌then◌else◌, ltb,
  length,
}
use dae_rs.Text.{Text, is_empty}
use dae_rs.Ruleset.IpSet.{IpNet, IpAddr, addr4, addr6, host4, host6}
use dae_rs.Ruleset.DomainSet.{CompiledDomainSet}
use dae_rs.Ruleset.Reference.{DomainPattern}
use dae_rs.Routing.MatchSet.{MatchSet, zeroed, with_index, with_port_range}
use dae_rs.Routing.MatchSet.MatchType
use dae_rs.Routing.MatchSet.Outbound as OutboundId
use dae_rs.Routing.Matcher.{CompiledRouting, RoutingResult}
use dae_rs.Routing.Expression.{
  Function, Outbound, NormalizedRule, Parsed, ok, err, ◌>>=◌, capacity_exceeded,
}
use dae_rs.Routing.Lowering.{
  TextMap, get, build_outbound_id_map, resolve_outbound_id, compute_override_outbound,
  build_fallback_matchset, Grouped, group_params_by_key,
}
use dae_rs.Routing.Lowering.Tries.{Tries, find_or_create_lpm_trie}
use dae_rs.Routing.Lowering.Entries.{Lowering, Lowered, build_match_set_for_function}
use dae_rs.Routing.Lowering.Domains.{collect_domain_sets}
use dae_rs.Dns.DomainRoutes.{NormalizedProgram, from_config}

abbrev pub max_match_set_len : ℕ
max_match_set_len = 1024

abbrev pub max_lpm_num : ℕ
max_lpm_num = 1032

-- What `compile_rules` reads of the memory cache of rule sets.
pub record RuleSets : Type 0 where
  pub get_set_ips : Text → Option (List IpNet)
  pub get_set_domains : Text → Option (List DomainPattern)

abbrev pub ip_sets : Option RuleSets → Option (Text → Option (List IpNet))
ip_sets none = none
ip_sets (some c) = some c.get_set_ips

abbrev pub pattern_sets : Option RuleSets → Option (Text → Option (List DomainPattern))
pattern_sets none = none
pattern_sets (some c) = some c.get_set_domains

abbrev pub or_empty : Option (List Text) → List Text
or_empty none = []
or_empty (some values) = values

-- A later result behind the entries so far.
abbrev pub behind : List MatchSet → Lowering × List MatchSet → Lowered
behind l r = ok (r.0, l ++ r.1)

-- The three loops over the rules, their functions and the key groups of a function.
module _ (parse_net : Text → Option IpNet) (sets : Option (Text → Option (List IpNet)))
    (outbound_id_map : TextMap ℕ) where
  unfoldable pub lower_keys :
      Function → TextMap (List Text) → Bool → Outbound → List Text → Lowering → Lowered
  unfolding compute_override_outbound is_empty resolve_outbound_id build_match_set_for_function get
  lower_keys func key_to_values is_last_function outbound [] s = ok (s, [])
  lower_keys func key_to_values is_last_function outbound (key ∷ keys) s =
      let ov_outbound = compute_override_outbound (is_empty keys) is_last_function outbound in
      do
        id ← resolve_outbound_id ov_outbound outbound_id_map
        r ←
            build_match_set_for_function parse_net sets func (or_empty (get key key_to_values)) id
              ov_outbound s
        later ← lower_keys func key_to_values is_last_function outbound keys r.0
        behind r.1 later

  unfoldable pub lower_functions : Outbound → List Function → Lowering → Lowered
  unfolding group_params_by_key is_empty lower_keys
  lower_functions outbound [] s = ok (s, [])
  lower_functions outbound (func ∷ funcs) s =
      let g = group_params_by_key func.raw_params in
      do
        r ← lower_keys func g.key_to_values (is_empty funcs) outbound g.key_order s
        later ← lower_functions outbound funcs r.0
        behind r.1 later

  unfoldable pub lower_rule : NormalizedRule → Lowering → Lowered
  unfolding resolve_outbound_id is_empty build_fallback_matchset lower_functions
  lower_rule rule s = do
    outbound_id ← resolve_outbound_id rule.outbound outbound_id_map
    if is_empty rule.and_functions
        then ok (s, build_fallback_matchset outbound_id rule.outbound ∷ [])
        else lower_functions rule.outbound rule.and_functions s

  unfoldable pub lower_rules : List NormalizedRule → Lowering → Lowered
  unfolding lower_rule
  lower_rules [] s = ok (s, [])
  lower_rules (rule ∷ rules) s = do
    r ← lower_rule rule s
    later ← lower_rules rules r.0
    behind r.1 later

abbrev pub proxy_cidr : IpAddr → IpNet
proxy_cidr (addr4 ip) = host4 ip
proxy_cidr (addr6 ip) = host6 ip

-- `dip(<proxy server>) && !dport(53) -> direct`
abbrev pub ip_ms : ℕ → MatchSet
ip_ms index = record {
  value = with_index index;
  negated = false;
  type = MatchType.ip_set;
  outbound = OutboundId.logical_and;
  must = false;
  mark = 0;
}

abbrev pub port_ms : MatchSet
port_ms = record {
  value = with_port_range 53 53;
  negated = true;
  type = MatchType.port;
  outbound = OutboundId.direct;
  must = false;
  mark = 0;
}

abbrev pub proxy_entries : ℕ → List MatchSet
proxy_entries index = ip_ms index ∷ port_ms ∷ []

abbrev pub no_tries : Tries
no_tries = record { lpm_tries = []; lpm_dedup = [] }

-- The trie of the proxy servers, with the entries for it.
unfoldable pub proxy_trie : List IpNet → Parsed (Tries × List MatchSet)
unfolding is_empty find_or_create_lpm_trie
proxy_trie cidrs =
    if is_empty cidrs
    then ok (no_tries, [])
    else find_or_create_lpm_trie cidrs no_tries >>= λ r. ok (r.0, proxy_entries r.1)

abbrev pub id_or_control_plane : Option ℕ → ℕ
id_or_control_plane none = OutboundId.control_plane_routing
id_or_control_plane (some id) = id

unfoldable pub fallback_result : Outbound → TextMap ℕ → RoutingResult
unfolding get
fallback_result o outbound_id_map = record {
  outbound = id_or_control_plane (get o.name outbound_id_map);
  mark = o.mark;
  must = o.must;
}

abbrev pub fallback_entry : RoutingResult → MatchSet
fallback_entry r = record {
  value = zeroed;
  negated = false;
  type = MatchType.fallback;
  outbound = r.outbound;
  must = r.must;
  mark = r.mark;
}

-- The capacity checks.
unfoldable pub checked : CompiledRouting → Parsed CompiledRouting
checked c =
    if ltb max_match_set_len (length c.match_sets)
    then err capacity_exceeded
    else if ltb max_lpm_num (length c.lpm_tries)
    then err capacity_exceeded
    else if ltb max_match_set_len (length c.domain_sets)
    then err capacity_exceeded
    else ok c

abbrev pub assemble :
    RoutingResult
    → List CompiledDomainSet
    → List MatchSet
    → Lowering × List MatchSet
    → CompiledRouting
assemble fallback domain_sets front lowered = record {
  match_sets = front ++ (lowered.1 ++ fallback_entry fallback ∷ []);
  lpm_tries = lowered.0.tries.lpm_tries;
  domain_sets = domain_sets;
  fallback = fallback;
}

-- `nodes` and `groups` are the names that the configuration gives to nodes and groups.
module _ (parse_net : Text → Option IpNet) (cache : Option RuleSets) (nodes groups : List Text)
    (proxy_server_ips : List IpAddr) where
  unfoldable pub compile_program : NormalizedProgram → Parsed CompiledRouting
  unfolding build_outbound_id_map proxy_trie collect_domain_sets lower_rules fallback_result checked
  compile_program program =
      let outbound_id_map = build_outbound_id_map nodes groups in
      let fallback = fallback_result program.fallback outbound_id_map in
      do
        proxy ← proxy_trie (map proxy_cidr proxy_server_ips)
        domain_sets ← collect_domain_sets (pattern_sets cache) program.rules
        lowered ←
            lower_rules parse_net (ip_sets cache) outbound_id_map program.rules
              (record { tries = proxy.0; rule_domain_idx = 0 })
        checked (assemble fallback domain_sets proxy.1 lowered)

  unfoldable pub compile_rules : List (Text × Text) → Text → Parsed CompiledRouting
  unfolding from_config compile_program
  compile_rules rules fallback = do program ← from_config rules fallback; compile_program program
