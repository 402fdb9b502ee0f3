-- ===== src/Routing/Lowering/Compile/DomainIndices.antt =====
-- The indices of domain sets that `compile_rules` gives to entries, and the sets that it collects.
use dae_rs.Prelude.{
  ℕ, ◌+◌, ◌≡◌, refl, sym, ap, subst, ◌∙◌, Bool, true, false, List, [], ◌∷◌, ◌++◌, Option,
  if◌then◌else◌, length, arith, append-nil, length-append,
}
use dae_rs.Text.{Text}
use dae_rs.Ruleset.IpSet.{IpNet, IpAddr}
use dae_rs.Ruleset.DomainSet.{CompiledDomainSet}
use dae_rs.Ruleset.Reference.{DomainPattern}
use dae_rs.Routing.MatchSet.{MatchSet, Value}
use dae_rs.Routing.Matcher.{CompiledRouting, RoutingResult}
use dae_rs.Routing.Expression.{Function, NormalizedRule, Parsed, ok, err, ◌>>=◌}
use dae_rs.Dns.DomainRoutes.{is_domain_function, NormalizedProgram}
use dae_rs.Ruleset.DomainSet
use dae_rs.Routing.Lowering.Domains.{function_patterns, function_sets, collect_domain_sets}
use dae_rs.Routing.Lowering.{build_outbound_id_map}
use dae_rs.Routing.Lowering.Compile.{
  RuleSets, ip_sets, pattern_sets, proxy_trie, no_tries, fallback_result, fallback_entry,
  compile_program,
}
use dae_rs.Routing.Lowering.Compile.Steps.{
  compile_program-Steps, checked_ok, ok_injective, proxy_trie-nil, proxy_trie-cons,
}
use dae_rs.Routing.Lowering.Tries.{Tries}
use dae_rs.Routing.Lowering.Entries.{Lowering}
use dae_rs.Routing.Lowering.Entries.Numbering.{domain_values, numbered, Counted, one_if}
use dae_rs.Routing.Lowering.Compile.DomainCounts.{
  rule_key_groups, domain_functions, rule_domain_functions, lower_rules-Counted,
  domain_values-append,
}

-- How many sets are collected.
abbrev OkLength : ℕ → Parsed (List CompiledDomainSet) → Type 0
OkLength n (err e) = Unit {0}
OkLength n (ok l) = length l ≡ n

module _ (sets : Option (Text → Option (List DomainPattern))) where
  function_sets-OkLength :
      (funcs : List Function) → OkLength (domain_functions funcs) (function_sets sets funcs)
  unfolding function_sets
  function_sets-OkLength [] = refl
  function_sets-OkLength (f ∷ fs) =
      with_first (is_domain_function f) (function_patterns sets f.raw_params)
        (function_sets sets fs) (function_sets-OkLength fs)
    where
      with_first :
          (b : Bool) (p : Parsed (List DomainPattern)) (q : Parsed (List CompiledDomainSet))
          → OkLength (domain_functions fs) q
          → OkLength (one_if b + domain_functions fs) (
              if b
              then (p >>= λ patterns. q >>= λ more. ok (DomainSet.compile patterns ∷ more))
              else q)
      with_first true (err e) q h = tt
      with_first true (ok p) (err e) h = tt
      with_first true (ok p) (ok l) h = omega (arith, h)
      with_first false p (err e) h = tt
      with_first false p (ok l) h = omega (arith, h)

  collect_domain_sets-OkLength :
      (rules : List NormalizedRule)
      → OkLength (rule_domain_functions rules) (collect_domain_sets sets rules)
  unfolding collect_domain_sets
  collect_domain_sets-OkLength [] = refl
  collect_domain_sets-OkLength (r ∷ rs) =
      joined (function_sets sets r.and_functions) (collect_domain_sets sets rs)
        (function_sets-OkLength r.and_functions) (collect_domain_sets-OkLength rs)
    where
      joined :
          (p q : Parsed (List CompiledDomainSet))
          → OkLength (domain_functions r.and_functions) p
          → OkLength (rule_domain_functions rs) q
          → OkLength
              (domain_functions r.and_functions + rule_domain_functions rs)
              (p >>= λ first. q >>= λ more. ok (first ++ more))
      joined (err e) q h k = tt
      joined (ok l) (err e) h k = tt
      joined (ok l) (ok m) h k = omega (arith, length-append l m, h, k)

abbrev None : Tries × List MatchSet → Type 0
None r = domain_values r.1 ≡ []

-- The entries in front have no domain set.
proxy_trie-none :
    (cidrs : List IpNet) (r : Tries × List MatchSet)
    → proxy_trie cidrs ≡ ok r
    → domain_values r.1 ≡ []
unfolding domain_values
proxy_trie-none [] r e = subst None (ok_injective (no_tries, []) r (sym proxy_trie-nil ∙ e)) refl
proxy_trie-none (c ∷ cs) r e = subst None (ok_injective _ r (sym (proxy_trie-cons c cs) ∙ e)) refl

fallback_none : (r : RoutingResult) → domain_values (fallback_entry r ∷ []) ≡ []
unfolding domain_values
fallback_none r = refl

abbrev pub NumberedSets : NormalizedProgram → CompiledRouting → Type 0
NumberedSets program c =
    (domain_values c.match_sets ≡ numbered 0 (rule_key_groups program.rules))
    × (length c.domain_sets ≡ rule_domain_functions program.rules)

module _ (parse_net : Text → Option IpNet) (cache : Option RuleSets) (nodes groups : List Text)
    (proxy_server_ips : List IpAddr) where
  -- Of the result of a compilation, the entries of type DOMAIN_SET hold the indices 0, 1, 2 and so on in their
  -- order, one for each key group of each function `domain` or `target_domain`, while there is one
  -- domain set for each such function.
  pub compile_program-NumberedSets :
      (program : NormalizedProgram) (c : CompiledRouting)
      → compile_program parse_net cache nodes groups proxy_server_ips program ≡ ok c
      → NumberedSets program c
  compile_program-NumberedSets program c e =
      let st = compile_program-Steps parse_net cache nodes groups proxy_server_ips program c e in
      let start : Lowering = record { tries = st.proxy.0; rule_domain_idx = 0 } in
      let counts = subst (Counted (rule_key_groups program.rules) start) st.lowered_eq (
        lower_rules-Counted parse_net (ip_sets cache) (build_outbound_id_map nodes groups)
          program.rules start) in
      let sets =
        subst (OkLength (rule_domain_functions program.rules)) st.domain_sets_eq
          (collect_domain_sets-OkLength (pattern_sets cache) program.rules) in
      let fallback = fallback_result program.fallback (build_outbound_id_map nodes groups) in
      subst (NumberedSets program) (checked_ok _ c st.checked_eq).0 (
        domain_values-append st.proxy.1 (st.lowered.1 ++ fallback_entry fallback ∷ [])
            ∙ ap
                (λ (l : List Value).
                  l ++ domain_values (st.lowered.1 ++ fallback_entry fallback ∷ []))
                (proxy_trie-none _ st.proxy st.proxy_eq)
            ∙ domain_values-append st.lowered.1 (fallback_entry fallback ∷ [])
            ∙ ap (λ (l : List Value). domain_values st.lowered.1 ++ l) (fallback_none fallback)
            ∙ append-nil (domain_values st.lowered.1)
            ∙ counts.1,
        sets,
      )
