-- ===== src/Tests/Lowering.antt =====
-- Instances of the theorems at concrete inputs: `compile_rules` of control/src/routing/matcher.rs.
use dae_rs.Prelude.{
  ◌≡◌, refl, Bool, true, false, ◌||◌, List, [], ◌∷◌, Option, none, some, if◌then◌else◌, ◌==◌, drop,
  arith,
}
use dae_rs.Text.{Text, text}
use dae_rs.Text.Equality.{any}
use dae_rs.Ruleset.IpSet.{IpNet, host4, IpAddr, addr4}
use dae_rs.Routing.Matcher.{RoutingParams, CompiledRouting, from_compiled, match_routing}
use dae_rs.Routing.Expression.{Outbound, Parsed, ok}
use dae_rs.Dns.DomainRoutes.{NormalizedProgram}
use dae_rs.Routing.Lowering.{
  build_outbound_id_map, group_params_by_key, parse_cidr_values, resolve_outbound_id,
}
use dae_rs.Routing.Lowering.Entries.{kind_of}
use dae_rs.Routing.Lowering.Tries.{Tries, find_or_create_lpm_trie, hash_cidrs}
use dae_rs.Routing.Lowering.Tries.Laws.{IsPlaced, find_or_create_lpm_trie-IsPlaced}
use dae_rs.Routing.Lowering.Compile.{compile_program, compile_rules, fallback_result}
use dae_rs.Routing.Lowering.Compile.Indices.{WithinCapacity, compile_rules-WithinCapacity}
use dae_rs.Routing.Lowering.Compile.ProxyServers.{
  addr_eq, to_direct, routed, match_routing-compile_rules,
}
use dae_rs.Routing.Lowering.Compile.DomainIndices.{NumberedSets, compile_program-NumberedSets}
use dae_rs.Routing.Lowering.Compile.IpRules.{IpRule, AllIpRules, program_of, first_rule}
use dae_rs.Routing.Lowering.Compile.IpMatching.{match_routing-first_rule}

-- No network is read but plain addresses.
abbrev no_net : Text → Option IpNet
no_net t = none

abbrev no_regex : Text → Option (Text → Bool)
no_regex p = none

abbrev host : List IpNet
host = host4 167772161 ∷ []

abbrev one_trie : Tries
one_trie = record { lpm_tries = host ∷ []; lpm_dedup = (hash_cidrs host, 0) ∷ [] }

find_or_create_lpm_trie-IsPlaced_example :
    IsPlaced host one_trie (find_or_create_lpm_trie host one_trie)
find_or_create_lpm_trie-IsPlaced_example =
    find_or_create_lpm_trie-IsPlaced host one_trie (omega arith, tt)

abbrev no_texts : List Text
no_texts = []

abbrev result_of_compile : Parsed CompiledRouting → CompiledRouting
result_of_compile (ok c) = c
result_of_compile _ = record {
  match_sets = [];
  lpm_tries = [];
  domain_sets = [];
  fallback = to_direct;
}

-- `dip(10.0.0.1) -> block`, with the proxy server 10.0.0.2.
abbrev rules : List (Text × Text)
rules = (text "dip(10.0.0.1)", text "block") ∷ []

abbrev proxies : List IpAddr
proxies = addr4 167772162 ∷ []

abbrev compiled : CompiledRouting
compiled =
    result_of_compile (compile_rules no_net none no_texts no_texts proxies rules (text "direct"))

compiled_ok :
    compile_rules no_net none no_texts no_texts proxies rules (text "direct") ≡ ok compiled
unfolding compile_rules
compiled_ok = refl

compile_rules-WithinCapacity_example : WithinCapacity compiled
compile_rules-WithinCapacity_example =
    compile_rules-WithinCapacity no_net none no_texts no_texts proxies rules (text "direct")
      compiled compiled_ok

abbrev params : RoutingParams
params = record {
  src_ip = none;
  dst_ip = some (addr4 167772161);
  src_port = none;
  dst_port = some 443;
  l4proto = none;
  domain = none;
  process_name = none;
  dscp = none;
}

match_routing-compile_rules_example : match_routing no_regex (from_compiled compiled) params ≡ (
    if any (addr_eq (addr4 167772161)) proxies || 443 == 53
    then routed no_regex compiled params (drop 2 compiled.match_sets)
    else to_direct)
match_routing-compile_rules_example =
    match_routing-compile_rules no_net none no_texts no_texts (addr4 167772162) [] no_regex rules
      (text "direct") compiled params (addr4 167772161) 443 compiled_ok (omega arith, tt) refl refl

abbrev direct : Outbound
direct = record { name = text "direct"; mark = 0; must = false }

-- `domain(suffix:a.org, keyword:b)`
abbrev domain_program : NormalizedProgram
domain_program = record {
  rules =
      record {
        and_functions =
            record {
              name = text "domain";
              negated = false;
              raw_params = text "suffix:a.org" ∷ text "keyword:b" ∷ [];
            }
            ∷ [];
        outbound = direct;
      }
      ∷ [];
  fallback = direct;
}

abbrev domain_compiled : CompiledRouting
domain_compiled =
    result_of_compile (compile_program no_net none no_texts no_texts [] domain_program)

domain_compiled_ok :
    compile_program no_net none no_texts no_texts [] domain_program ≡ ok domain_compiled
unfolding compile_program
domain_compiled_ok = refl

compile_program-NumberedSets_example : NumberedSets domain_program domain_compiled
compile_program-NumberedSets_example =
    compile_program-NumberedSets no_net none no_texts no_texts [] domain_program domain_compiled
      domain_compiled_ok

-- `!dip(10.0.0.1) -> block`
abbrev ip_rules : List IpRule
ip_rules =
    record {
      func = record { name = text "dip"; negated = true; raw_params = text "10.0.0.1" ∷ [] };
      outbound = record { name = text "block"; mark = 0; must = false };
      key = [];
      nets = host;
      outbound_id = 1;
    }
    ∷ []

ip_rules-AllIpRules : AllIpRules no_net none (build_outbound_id_map no_texts no_texts) ip_rules
unfolding kind_of group_params_by_key parse_cidr_values resolve_outbound_id
ip_rules-AllIpRules = (
  (
    refl,
    refl,
    refl,
    refl,
    refl,
    refl,
    ((omega arith, omega arith, omega arith, omega arith), tt),
    (omega arith, tt),
  ),
  tt,
)

match_routing-first_rule_example :
    (c : CompiledRouting) × (compile_program no_net none no_texts no_texts []
        (program_of ip_rules direct)
      ≡ ok c)
    × (match_routing no_regex (from_compiled c) params
        ≡ first_rule
            (fallback_result direct (build_outbound_id_map no_texts no_texts))
            ip_rules
            (addr4 167772161))
match_routing-first_rule_example =
    match_routing-first_rule no_net none no_texts no_texts no_regex ip_rules direct params
      (addr4 167772161) ip_rules-AllIpRules (omega arith) refl
