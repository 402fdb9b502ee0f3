-- ===== src/Routing/Lowering/Domains.antt =====
-- control/src/routing/matcher.rs: the domain sets that `compile_rules` collects before it lowers the rules.
use dae_rs.Prelude.{List, [], ◌∷◌, ◌++◌, Option, none, some, if◌then◌else◌}
use dae_rs.Text.{Text}
use dae_rs.Ruleset.DomainSet
use dae_rs.Ruleset.DomainSet.{CompiledDomainSet}
use dae_rs.Ruleset.Reference.{DomainPattern, RuleSetRef, set_ref, plain, parse_ref}
use dae_rs.Routing.DomainStrings.{domain_strings_to_patterns}
use dae_rs.Routing.Expression.{Function, NormalizedRule, Parsed, ok, err, ◌>>=◌, rule_set_missing}
use dae_rs.Routing.Lowering.{ok_or}
use dae_rs.Dns.DomainRoutes.{is_domain_function}

-- The memory cache of rule sets is a parameter: `sets` is absent where there is no cache, and else gives
-- the patterns of a domain_list that is loaded.
module _ (sets : Option (Text → Option (List DomainPattern))) where
  abbrev set_patterns : Text → Option (List DomainPattern)
  set_patterns name = elim sets [ none ↦ none | some get_set_domains ↦ get_set_domains name ]

  unfoldable pub ref_patterns : RuleSetRef → Parsed (List DomainPattern)
  unfolding domain_strings_to_patterns
  ref_patterns (set_ref name) = ok_or (set_patterns name) (err rule_set_missing)
  ref_patterns (plain v) = ok (domain_strings_to_patterns (v ∷ []))

  unfoldable pub function_patterns : List Text → Parsed (List DomainPattern)
  unfolding ref_patterns parse_ref
  function_patterns [] = ok []
  function_patterns (raw ∷ raws) =
      let rest = function_patterns raws in
      do patterns ← ref_patterns (parse_ref raw); more ← rest; ok (patterns ++ more)

  -- One set for each function `domain` or `target_domain`.
  unfoldable pub function_sets : List Function → Parsed (List CompiledDomainSet)
  unfolding function_patterns is_domain_function DomainSet.compile
  function_sets [] = ok []
  function_sets (f ∷ fs) =
      let rest = function_sets fs in
      let with_f = function_patterns f.raw_params >>= λ patterns.
      rest >>= λ more. ok (DomainSet.compile patterns ∷ more) in
      if is_domain_function f then with_f else rest

  unfoldable pub collect_domain_sets : List NormalizedRule → Parsed (List CompiledDomainSet)
  unfolding function_sets
  collect_domain_sets [] = ok []
  collect_domain_sets (r ∷ rs) =
      let rest = collect_domain_sets rs in
      do first ← function_sets r.and_functions; more ← rest; ok (first ++ more)
