-- ===== src/Dns/DomainRoutes/FirstMatch.antt =====
-- Where a name is routed, read off the rules.
use dae_rs.Prelude.{◌≡◌, refl, Bool, false, List, [], ◌∷◌, Option, none, some, if◌then◌else◌}
use dae_rs.Text.{Text, is_empty}
use dae_rs.Text.Equality.{any}
use dae_rs.Ruleset.DomainSet
use dae_rs.Ruleset.DomainSet.Laws.{AllRegexes, matches-scan}
use dae_rs.Ruleset.Reference.{DomainPattern, normalize_qname, match_domain_patterns}
use dae_rs.Routing.Expression.{NormalizedRule}
use dae_rs.Dns.Forwarder.{DnsOutbound, DnsDomainRoute, outbound_of, on_option, route_domain}
use dae_rs.Dns.DomainRoutes.{rule_patterns, domain_routes}

module _ (sets : Option (Text → Option (List DomainPattern)))
    (regex_new : Text → Option (Text → Bool)) (fallback : DnsOutbound) (qname : Text) where
  -- The way out of the first rule whose domain patterns match the name, one by one, whether their
  -- function is negated or not and whatever other functions stand beside it; a rule with a set
  -- that is not loaded is passed over.
  unfoldable pub first_match : List NormalizedRule → DnsOutbound
  unfolding rule_patterns match_domain_patterns outbound_of
  first_match [] = fallback
  first_match (r ∷ rs) =
      let rest = first_match rs in
      on_option (rule_patterns sets r) rest λ patterns.
        if match_domain_patterns regex_new qname patterns then outbound_of r.outbound.name else rest

  -- No rule has an empty regex pattern.
  abbrev pub RegexesIn : Option (List DomainPattern) → Type 0
  RegexesIn none = Unit
  RegexesIn (some ps) = AllRegexes ps

  abbrev pub RegexesOf : List NormalizedRule → Type 0
  RegexesOf [] = Unit
  RegexesOf (r ∷ rs) = RegexesIn (rule_patterns sets r) × RegexesOf rs

  one_rule :
      (r : NormalizedRule) (routes : List DnsDomainRoute) (rest : DnsOutbound)
      (o : Option (List DomainPattern))
      → is_empty (normalize_qname qname) ≡ false
      → RegexesIn o
      → route_domain regex_new routes fallback qname ≡ rest
      → route_domain regex_new
          (on_option o routes λ patterns.
            if is_empty patterns
            then routes
            else record {
              matcher = DomainSet.compile patterns;
              outbound = outbound_of r.outbound.name;
            }
              ∷ routes)
          fallback
          qname
        ≡ (on_option o rest λ patterns.
            if match_domain_patterns regex_new qname patterns
            then outbound_of r.outbound.name
            else rest)
  unfolding route_domain is_empty match_domain_patterns any
  one_rule r routes rest none e h k = k
  one_rule r routes rest (some []) e h k = k
  one_rule r routes rest (some (p ∷ ps)) e h k = rw (matches-scan regex_new (p ∷ ps) qname e h, k)

  -- For a name that is not empty once normalized, and rules with no empty regex pattern, the routes built
  -- from the rules send the name where the first rule goes whose domain patterns match it, with the
  -- fallback behind the last rule. The patterns of a rule are those of all its domain functions: a `!`
  -- before such a function, and the other functions of the rule, are not looked at.
  pub route_domain-domain_routes :
      (rules : List NormalizedRule)
      → is_empty (normalize_qname qname) ≡ false
      → RegexesOf rules
      → route_domain regex_new (domain_routes sets rules) fallback qname ≡ first_match rules
  unfolding domain_routes first_match
  route_domain-domain_routes [] e h = unfold route_domain in refl
  route_domain-domain_routes (r ∷ rs) e h =
      one_rule r (domain_routes sets rs) (first_match rs) (rule_patterns sets r) e h.0
        (route_domain-domain_routes rs e h.1)
