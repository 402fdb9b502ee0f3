-- ===== src/Tests/Routing.antt =====
-- Instances of the theorems at concrete inputs: control/src/routing.
use mathlib.Core.Option.{get_or}
use dae_rs.Prelude.{
  none, arith, Option, ℕ, ◌≡◌, refl, Bool, true, false, List, [], ◌∷◌, ◌++◌, some, ◌==◌,
}
use dae_rs.Routing.MatchSet.{index_of, with_index, MatchSet, zeroed}
use dae_rs.Routing.MatchSet.MatchType
use dae_rs.Routing.MatchSet.Outbound
use dae_rs.Text.{Text}
use dae_rs.Ruleset.IpSet.{IpNet, v4, addr4}
use dae_rs.Ruleset.IpSet.Laws.{scan}
use dae_rs.Routing.Matcher.Evaluation.{eval_match-scan}
use dae_rs.Routing.Matcher.{
  RoutingParams, RoutingMatcher, CompiledRouting, from_compiled, eval_match, match_routing,
  RoutingResult, cleared, walk, result_of,
}
use dae_rs.Routing.Matcher.Rules.{RuleEntries, entries, first_taken, match_routing-first_taken}
use dae_rs.Routing.Matcher.Kernel.{route, route_eval_match, walk-route, linked_rule_skipped}

abbrev entry : ℕ → Bool → ℕ → MatchSet
entry type negated outbound = record {
  value = zeroed;
  negated = negated;
  type = type;
  outbound = outbound;
  must = false;
  mark = 0;
}

-- An entry of type `port` hits, no other does.
abbrev hits_port : MatchSet → Bool
hits_port ms = ms.type == MatchType.port

abbrev to_block : RoutingResult
to_block = record { outbound = Outbound.block; mark = 0; must = false }

abbrev port_and_proto : RuleEntries
port_and_proto = record {
  linked = entry MatchType.l4_proto false Outbound.logical_and ∷ [];
  last = entry MatchType.port false 2;
}

abbrev must_port : RuleEntries
must_port = record { linked = []; last = entry MatchType.port false Outbound.must_rules }

abbrev not_dscp : RuleEntries
not_dscp = record { linked = []; last = entry MatchType.dscp true 3 }

abbrev no_regex : Text → Option (Text → Bool)
no_regex p = none

abbrev rules : List RuleEntries
rules = must_port ∷ port_and_proto ∷ not_dscp ∷ []

abbrev params : RoutingParams
params = record {
  src_ip = none;
  dst_ip = some (addr4 167772161);
  src_port = none;
  dst_port = some 443;
  l4proto = some 1;
  domain = none;
  process_name = none;
  dscp = none;
}

abbrev matcher : RoutingMatcher
matcher = record {
  match_sets = entries rules;
  compiled_lpm = [];
  compiled_domains = [];
  fallback = to_block;
}

match_routing-first_taken_example :
    match_routing no_regex matcher params
    ≡ first_taken (λ ms. eval_match no_regex matcher ms params) to_block false rules
match_routing-first_taken_example =
    match_routing-first_taken no_regex matcher params rules refl
      ((tt, refl), (((refl, tt), refl), ((tt, refl), tt)))

abbrev nets : List IpNet
nets = v4 (record { addr = 167772160; network = 167772160; prefix_len = 8 }) ∷ []

abbrev compiled : CompiledRouting
compiled = record {
  match_sets = [];
  lpm_tries = [] ∷ nets ∷ [];
  domain_sets = [];
  fallback = to_block;
}

abbrev in_nets : MatchSet
in_nets = record (entry MatchType.ip_set false 2) { value = with_index 1 }

eval_match-scan_example :
    eval_match no_regex (from_compiled compiled) in_nets params ≡ scan nets (addr4 167772161)
unfolding index_of
eval_match-scan_example =
    eval_match-scan no_regex compiled in_nets params nets (addr4 167772161) refl refl refl
      ((omega arith, refl, omega arith, omega arith), tt)

abbrev singles : List MatchSet
singles = entry MatchType.port true 2 ∷ entry MatchType.port false 3 ∷ []

-- The kernel answers likewise.
abbrev tests_port : MatchSet → Option Bool
tests_port ms = some (hits_port ms)

walk-route_example :
    walk hits_port to_block cleared singles ≡ get_or (route tests_port cleared singles) to_block
unfolding route_eval_match
walk-route_example =
    walk-route hits_port tests_port to_block singles ((refl, refl, refl, ((refl, refl, refl, tt))))

-- The kernel does not know the type UPSTREAM.
unknown_type_test : route tests_port cleared (entry MatchType.upstream false 2 ∷ singles) ≡ none
unfolding route
unknown_type_test = refl

abbrev and_port : MatchSet
and_port = entry MatchType.port false Outbound.logical_and

linked_rule_skipped_example :
    (walk hits_port to_block cleared ((and_port ∷ []) ++ (entry MatchType.port false 2 ∷ []))
      ≡ walk hits_port to_block cleared [])
    × (route tests_port cleared ((and_port ∷ []) ++ (entry MatchType.port false 2 ∷ []))
        ≡ some (result_of (entry MatchType.port false 2) false))
unfolding route_eval_match
linked_rule_skipped_example =
    linked_rule_skipped hits_port tests_port to_block and_port [] (entry MatchType.port false 2) []
      (refl, refl, refl, tt) refl refl refl refl
