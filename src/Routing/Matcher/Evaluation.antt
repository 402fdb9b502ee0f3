-- ===== src/Routing/Matcher/Evaluation.antt =====
-- What one entry of a compiled routing tests.
use dae_rs.Prelude.{
  ℕ, ◌≡◌, ap, ◌∙◌, Bool, List, [], ◌∷◌, Option, none, some, map, get_elem?, zero, suc,
}
use dae_rs.Text.{Text}
use dae_rs.Ruleset.IpSet
use dae_rs.Ruleset.IpSet.{CompiledIpSet, IpNet, IpAddr}
use dae_rs.Ruleset.IpSet.Laws.{AllNets, scan, contains-compile}
use dae_rs.Routing.MatchSet.{MatchSet, index_of}
use dae_rs.Routing.MatchSet.MatchType
use dae_rs.Routing.Matcher.{
  RoutingParams, CompiledRouting, from_compiled, is_some_and, lpm_contains, eval_match,
}

get_elem?-map :
    (l : List (List IpNet)) (i : ℕ) (nets : List IpNet)
    → get_elem? l i ≡ some nets
    → get_elem? (map IpSet.compile l) i ≡ some (IpSet.compile nets)
get_elem?-map [] i nets e = absurd (none≢some e)
  where
    none≢some : ◌≡◌ {A = Option (List IpNet)} none (some nets) → ⊥
    none≢some e = cc
get_elem?-map (x ∷ xs) zero nets e = cc e
get_elem?-map (x ∷ xs) (suc i) nets e = get_elem?-map xs i nets e

lpm_contains-scan :
    (regex_new : Text → Option (Text → Bool)) (c : CompiledRouting) (i : ℕ) (nets : List IpNet)
    (ip : IpAddr)
    → get_elem? c.lpm_tries i ≡ some nets
    → AllNets nets
    → lpm_contains regex_new (from_compiled c) i ip ≡ scan nets ip
unfolding lpm_contains from_compiled
lpm_contains-scan regex_new c i nets ip e w =
    ap (λ (o : Option CompiledIpSet). is_some_and o (λ s. IpSet.contains s ip))
      (get_elem?-map c.lpm_tries i nets e)
    ∙ contains-compile nets ip w

-- An entry of the type IP_SET, on a connection with a destination address, whose index names a list of
-- networks, none of prefix length 0, tests whether some network of the list has that address.
pub eval_match-scan :
    (regex_new : Text → Option (Text → Bool)) (c : CompiledRouting) (ms : MatchSet)
    (p : RoutingParams) (nets : List IpNet) (ip : IpAddr)
    → ms.type ≡ MatchType.ip_set
    → p.dst_ip ≡ some ip
    → get_elem? c.lpm_tries (index_of ms.value) ≡ some nets
    → AllNets nets
    → eval_match regex_new (from_compiled c) ms p ≡ scan nets ip
unfolding eval_match
eval_match-scan regex_new c ms p nets ip t d e w =
    rw (t, d) (lpm_contains-scan regex_new c (index_of ms.value) nets ip e w)
