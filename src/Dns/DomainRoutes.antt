-- ===== src/Dns/DomainRoutes.antt =====
-- control/src/routing/matcher.rs: `NormalizedProgram::from_config` and `build_dns_domain_routes`. The
-- memory cache of rule sets is a parameter: `sets` is absent where there is no cache, and else gives the
-- patterns of a set that is loaded.
use dae_rs.Prelude.{
  ℕ, Bool, true, false, not, ◌&&◌, ◌||◌, List, [], ◌∷◌, ◌++◌, Option, none, some, if◌then◌else◌,
}
use dae_rs.Text.{Text, text, text_eq, is_empty}
use dae_rs.Ruleset.DomainSet
use dae_rs.Ruleset.Reference.{DomainPattern, RuleSetRef, set_ref, plain, parse_ref}
use dae_rs.Routing.DomainStrings.{domain_strings_to_patterns}
use dae_rs.Routing.Expression.{Function, Outbound, NormalizedRule, Parsed, ok, err, ◌>>=◌}
use dae_rs.Routing.Action.{parse_rule, parse_action}
use dae_rs.Dns.Forwarder.{DnsOutbound, DnsDomainRoute, outbound_of, on_option}
pub mod FirstMatch

pub record NormalizedProgram : Type 0 where
  pub rules : List NormalizedRule
  pub fallback : Outbound

-- The rules of the configuration: expression and action.
unfoldable pub parse_rules : List (Text × Text) → Parsed (List NormalizedRule)
unfolding parse_rule
parse_rules [] = ok []
parse_rules (r ∷ rs) =
    let rest = parse_rules rs in do rule ← parse_rule r.0 r.1; rules ← rest; ok (rule ∷ rules)

unfoldable pub from_config : List (Text × Text) → Text → Parsed NormalizedProgram
unfolding parse_rules parse_action
from_config rules fallback = do
  parsed ← parse_rules rules
  action ← parse_action fallback
  ok (record { rules = parsed; fallback = action })

unfoldable pub is_domain_function : Function → Bool
unfolding text_eq
is_domain_function f = text_eq f.name (text "domain") || text_eq f.name (text "target_domain")

module _ (sets : Option (Text → Option (List DomainPattern))) where
  -- The patterns of one parameter; without a value, the rule is skipped.
  unfoldable pub patterns_of_ref : RuleSetRef → Option (List DomainPattern)
  unfolding domain_strings_to_patterns
  patterns_of_ref (set_ref name) = on_option sets none (λ get_set_domains. get_set_domains name)
  patterns_of_ref (plain v) = some (domain_strings_to_patterns (v ∷ []))

  -- The loops over the parameters and over the functions of a rule, from the patterns so far.
  unfoldable pub extend_params : List Text → List DomainPattern → Option (List DomainPattern)
  unfolding patterns_of_ref parse_ref
  extend_params [] patterns = some patterns
  extend_params (raw ∷ raws) patterns =
      on_option (patterns_of_ref (parse_ref raw)) none (λ ps. extend_params raws (patterns ++ ps))

  unfoldable pub extend_functions : List Function → List DomainPattern → Option (List DomainPattern)
  unfolding extend_params is_domain_function
  extend_functions [] patterns = some patterns
  extend_functions (f ∷ fs) patterns =
      let skipped = extend_functions fs patterns in
      let extended =
        on_option (extend_params f.raw_params patterns) none (λ ps. extend_functions fs ps) in
      if is_domain_function f then extended else skipped

  -- `has_domain` is left out: a rule without such a function has no patterns.
  unfoldable pub rule_patterns : NormalizedRule → Option (List DomainPattern)
  unfolding extend_functions
  rule_patterns r = extend_functions r.and_functions []

  unfoldable pub domain_routes : List NormalizedRule → List DnsDomainRoute
  unfolding rule_patterns is_empty outbound_of DomainSet.compile
  domain_routes [] = []
  domain_routes (r ∷ rs) =
      let rest = domain_routes rs in
      on_option (rule_patterns r) rest λ patterns.
        if is_empty patterns
        then rest
        else record { matcher = DomainSet.compile patterns; outbound = outbound_of r.outbound.name }
          ∷ rest

  unfoldable pub build_dns_domain_routes : List (Text × Text) → Text → Parsed (List DnsDomainRoute)
  unfolding from_config domain_routes
  build_dns_domain_routes rules fallback = do
    program ← from_config rules fallback
    ok (domain_routes program.rules)
