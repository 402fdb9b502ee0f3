-- ===== src/Routing/Lowering/Compile/IpMatching.antt =====
-- The matcher on the entries of rules of one function on the destination address each.
use dae_rs.Prelude.{
  ℕ, ◌^◌, ◌≡◌, ◌≤◌, ◌<◌, refl, sym, ap, ap₂, ◌∙◌, Bool, false, List, [], ◌∷◌, ◌++◌, Option, some,
  map, if◌then◌else◌, ◌==◌, length, get_elem?, arith, length-append,
}
use dae_rs.Text.{Text, is_empty}
use dae_rs.Ruleset.IpSet.{IpNet, IpAddr}
use dae_rs.Ruleset.IpSet.Laws.{AllNets, scan}
use dae_rs.Routing.MatchSet.{MatchSet, is_linked, not_linked, index_of-with_index}
use dae_rs.Routing.MatchSet.Outbound as OutboundId
use dae_rs.Routing.Matcher.{
  CompiledRouting, RoutingParams, from_compiled, eval_match, match_routing, walk, cleared,
}
use dae_rs.Routing.Matcher.Evaluation.{eval_match-scan}
use dae_rs.Routing.Expression.{Outbound, ok}
use dae_rs.Dns.DomainRoutes.{is_domain_function}
use dae_rs.Routing.Lowering.Domains.{function_sets, collect_domain_sets}
use dae_rs.Routing.Lowering.Entries.Numbering.{is_domain_kind, domain_name}
use dae_rs.Routing.Lowering.{TextMap, build_outbound_id_map}
use dae_rs.Routing.Lowering.Tries.{Tries}
use dae_rs.Routing.Lowering.Entries.{Lowering}
use dae_rs.Routing.Lowering.Compile.Indices.{get_elem?-some_lt}
use dae_rs.Routing.Lowering.Compile.{
  max_match_set_len, max_lpm_num, RuleSets, ip_sets, pattern_sets, lower_rules, no_tries,
  proxy_trie, fallback_result, fallback_entry, checked, assemble, compile_program,
}
use dae_rs.Routing.Lowering.Compile.IpRules.{
  IpRule, rule_of, program_of, applies, first_rule, entry, AllIpRules, EntriesOf, EntriesOf-length,
  AllSingle, lower_rules-AllLowered,
}

-- The matcher on these entries.
module _ (regex_new : Text → Option (Text → Bool)) (c : CompiledRouting) (p : RoutingParams)
    (ip : IpAddr) (dst : p.dst_ip ≡ some ip) (t : Tries) (tries : c.lpm_tries ≡ t.lpm_tries)
    (few : length t.lpm_tries < 2 ^ 32) where
  abbrev evaluates : MatchSet → Bool
  evaluates ms = eval_match regex_new (from_compiled c) ms p

  entry_eval :
      (r : IpRule) (i : ℕ)
      → get_elem? t.lpm_tries i ≡ some r.nets
      → AllNets r.nets
      → evaluates (entry r i) ≡ scan r.nets ip
  entry_eval r i e w =
      eval_match-scan regex_new c (entry r i) p r.nets ip refl dst
        (ap₂ (λ (l : List (List IpNet)) (k : ℕ). get_elem? l k) tries
            (index_of-with_index i (omega (arith, few, get_elem?-some_lt t.lpm_tries i r.nets e)))
          ∙ e)
        w

  walk-entry :
      (r : IpRule) (i : ℕ) (rest : List MatchSet)
      → is_linked r.outbound_id ≡ false
      → (r.outbound_id == OutboundId.must_rules) ≡ false
      → evaluates (entry r i) ≡ scan r.nets ip
      → walk evaluates c.fallback cleared (entry r i ∷ rest) ≡ (
          if applies r ip
          then record { outbound = r.outbound_id; mark = r.outbound.mark; must = r.outbound.must }
          else walk evaluates c.fallback cleared rest)
  unfolding walk
  walk-entry r i rest l m e = ground (arith, not_linked r.outbound_id l)

  -- The last entry gives the fallback, which is what the loops give behind it.
  walk-fallback_entry :
      walk evaluates c.fallback cleared (fallback_entry c.fallback ∷ []) ≡ c.fallback
  unfolding walk eval_match
  walk-fallback_entry = ground (arith, not_linked c.fallback.outbound)

  walk-EntriesOf :
      (rs : List IpRule) (es : List MatchSet)
      → AllSingle rs
      → EntriesOf t rs es
      → walk evaluates c.fallback cleared (es ++ fallback_entry c.fallback ∷ [])
        ≡ first_rule c.fallback rs ip
  walk-EntriesOf [] [] w h = walk-fallback_entry
  walk-EntriesOf [] (e ∷ es) w h = absurd h
  walk-EntriesOf (r ∷ rs) [] w h = absurd h
  walk-EntriesOf (r ∷ rs) (e ∷ es) w h =
      ap
        (λ (x : MatchSet).
          walk evaluates c.fallback cleared (x ∷ es ++ fallback_entry c.fallback ∷ []))
        h.0.1
      ∙ walk-entry r h.0.0 (es ++ fallback_entry c.fallback ∷ []) w.0.0 w.0.1
          (entry_eval r h.0.0 h.0.2 w.0.2)
      ∙ ground (arith, walk-EntriesOf rs es w.1 h.1)

checked_fits :
    (c : CompiledRouting)
    → length c.match_sets ≤ max_match_set_len
    → length c.lpm_tries ≤ max_lpm_num
    → length c.domain_sets ≤ max_match_set_len
    → checked c ≡ ok c
unfolding checked
checked_fits c h k l = ground (arith, h, k, l)

match_routing-walk :
    (regex_new : Text → Option (Text → Bool)) (c : CompiledRouting) (p : RoutingParams)
    → match_routing regex_new (from_compiled c) p
      ≡ walk (λ ms. eval_match regex_new (from_compiled c) ms p) c.fallback cleared c.match_sets
unfolding match_routing from_compiled
match_routing-walk regex_new c p = refl

module _ (parse_net : Text → Option IpNet) (cache : Option RuleSets)
    (nodes groups : List Text) where
  abbrev id_map : TextMap ℕ
  id_map = build_outbound_id_map nodes groups

  collect_domain_sets-rule_of :
      (rs : List IpRule)
      → AllIpRules parse_net (ip_sets cache) id_map rs
      → collect_domain_sets (pattern_sets cache) (map rule_of rs) ≡ ok []
  unfolding collect_domain_sets function_sets
  collect_domain_sets-rule_of [] h = refl
  collect_domain_sets-rule_of (r ∷ rs) h =
      let other : is_domain_function r.func ≡ false =
        unfold is_domain_function in sym (domain_name r.func.name) ∙ ap is_domain_kind h.0.0 in
      rw (other, collect_domain_sets-rule_of rs h.1) refl

  AllSingle-AllIpRules :
      (rs : List IpRule) → AllIpRules parse_net (ip_sets cache) id_map rs → AllSingle rs
  AllSingle-AllIpRules [] h = tt
  AllSingle-AllIpRules (r ∷ rs) h = ((h.0.4, h.0.5, h.0.6), AllSingle-AllIpRules rs h.1)

  -- What is compiled from the lowered rules.
  abbrev compiled : List IpRule → Outbound → Lowering × List MatchSet → CompiledRouting
  compiled rs fallback out = assemble (fallback_result fallback id_map) [] [] out

  compile_program-compiled :
      (rs : List IpRule) (fallback : Outbound) (out : Lowering × List MatchSet)
      → collect_domain_sets (pattern_sets cache) (map rule_of rs) ≡ ok []
      → lower_rules parse_net
          (ip_sets cache)
          id_map
          (map rule_of rs)
          (record { tries = no_tries; rule_domain_idx = 0 })
        ≡ ok out
      → checked (compiled rs fallback out) ≡ ok (compiled rs fallback out)
      → compile_program parse_net cache nodes groups [] (program_of rs fallback)
        ≡ ok (compiled rs fallback out)
  unfolding compile_program proxy_trie is_empty
  compile_program-compiled rs fallback out d l e = rw (compile_program, d, l) e

  -- Rules that have one function `dip` each, with one key group, networks that parse, none of
  -- prefix length 0, and an outbound other than LOGICAL_OR, LOGICAL_AND and MUST_RULES, and that
  -- are at most 1023, compile where no proxy server is given; and the matcher on what is compiled
  -- routes a connection with a destination address by the first rule whose networks have this
  -- address (do not have it, with `!`), with the fallback after the last rule.
  pub match_routing-first_rule :
      (regex_new : Text → Option (Text → Bool)) (rs : List IpRule) (fallback : Outbound)
      (p : RoutingParams) (ip : IpAddr)
      → AllIpRules parse_net (ip_sets cache) (build_outbound_id_map nodes groups) rs
      → length rs < max_match_set_len
      → p.dst_ip ≡ some ip
      → (c : CompiledRouting) × (compile_program parse_net cache nodes groups []
            (program_of rs fallback)
          ≡ ok c)
        × (match_routing regex_new (from_compiled c) p
            ≡ first_rule (fallback_result fallback (build_outbound_id_map nodes groups)) rs ip)
  match_routing-first_rule regex_new rs fallback p ip h n dst =
      let start : Lowering = record { tries = no_tries; rule_domain_idx = 0 } in
      let out = lower_rules-AllLowered parse_net (ip_sets cache) id_map rs start h tt tt in
      let c = compiled rs fallback out.0 in
      (
        c,
        compile_program-compiled rs fallback out.0 (collect_domain_sets-rule_of rs h) out.1 (
            checked_fits c
              (omega (
                arith,
                n,
                length-append out.0.1 (fallback_entry (fallback_result fallback id_map) ∷ []),
                EntriesOf-length out.0.0.tries rs out.0.1 out.2.1,
              ))
              (omega (arith, n, out.2.2)) (omega arith)),
        match_routing-walk regex_new c p
            ∙ walk-EntriesOf regex_new c p ip dst out.0.0.tries refl (omega (arith, n, out.2.2)) rs
                out.0.1 (AllSingle-AllIpRules rs h) out.2.1,
      )
