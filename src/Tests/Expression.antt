-- ===== src/Tests/Expression.antt =====
-- Instances of the theorems at concrete inputs: the expressions of control/src/routing/matcher.rs.
use dae_rs.Prelude.{◌≡◌, refl, true, false, List, [], ◌∷◌, map}
use dae_rs.Text.{Text, text, text_eq, is_empty, trim, strip_prefix}
use dae_rs.Ruleset.Reference.{DomainPattern, suffix, regex, domain_pattern_to_string}
use dae_rs.Routing.Expression.{Function, ok, parse_match}
use dae_rs.Routing.Expression.Splits.{balanced}
use dae_rs.Routing.Expression.Printing.{name_char, match_text}
use dae_rs.Routing.Expression.RoundTrip.{parse_match-match_text}
use dae_rs.Routing.Action.{parse_action, parse_mark_value}
use dae_rs.Routing.Action.Laws.{action_text, parse_action-action_text}
use dae_rs.Routing.DomainStrings.{
  domain_strings_to_patterns, domain_strings_to_patterns-domain_pattern_to_string,
}

abbrev ports : List Text
ports = text "80" ∷ text "443" ∷ []

-- `dport(80,443)&&!sip(a(b,c))`
abbrev functions : List Function
functions =
    record { name = text "dport"; negated = false; raw_params = ports }
    ∷ record { name = text "sip"; negated = true; raw_params = text "a(b,c)" ∷ [] }
    ∷ []

parse_match-match_text_example : parse_match (match_text functions) ≡ ok functions
unfolding name_char is_empty trim balanced
parse_match-match_text_example = parse_match-match_text functions (
  (
    refl,
    (refl, (refl, (refl, (refl, (refl, tt))))),
    (((refl, refl), refl), (((refl, refl), refl), tt)),
  ),
  ((refl, (refl, (refl, (refl, tt))), (((refl, refl), refl), tt)), tt),
)

parse_action-action_text_example :
    parse_action (action_text (text "proxy_group") (text "0x100") true)
    ≡ ok (record { name = text "proxy_group"; mark = 256; must = true })
unfolding is_empty trim balanced text_eq strip_prefix parse_mark_value
parse_action-action_text_example =
    parse_action-action_text (text "proxy_group") (text "0x100") 256 true
      (((refl, refl), refl), refl, refl) ((refl, refl), refl) refl

abbrev domain_patterns : List DomainPattern
domain_patterns =
    record { pattern_type = suffix; value = text "example.com" }
    ∷ record { pattern_type = regex; value = text "a:b" }
    ∷ []

domain_strings_to_patterns-domain_pattern_to_string_example :
    domain_strings_to_patterns (map domain_pattern_to_string domain_patterns) ≡ domain_patterns
domain_strings_to_patterns-domain_pattern_to_string_example =
    domain_strings_to_patterns-domain_pattern_to_string domain_patterns
