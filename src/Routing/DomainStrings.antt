-- ===== src/Routing/DomainStrings.antt =====
-- control/src/routing/matcher.rs: `domain_strings_to_patterns`.
use dae_rs.Prelude.{◌≡◌, refl, ap₂, ◌||◌, List, [], ◌∷◌, ◌++◌, none, some, map, if◌then◌else◌}
use dae_rs.Text.{Text, text, text_eq, split_once}
use dae_rs.Ruleset.Reference.{
  DomainPatternType, suffix, keyword, full, regex, domain, DomainPattern, domain_pattern_to_string,
  key_of,
}

unfoldable pub type_of_key : Text → DomainPatternType
unfolding text_eq
type_of_key key =
    if text_eq key (text "full")
    then full
    else if text_eq key (text "keyword") || text_eq key (text "contains")
    then keyword
    else if text_eq key (text "regex")
    then regex
    else if text_eq key (text "domain")
    then domain
    else suffix

unfoldable pub domain_string_to_pattern : Text → DomainPattern
unfolding split_once type_of_key
domain_string_to_pattern s = elim (split_once b':' s) [
  | some (key, val) ↦ record { pattern_type = type_of_key key; value = val }
  | none ↦ record { pattern_type = suffix; value = s }
]

unfoldable pub domain_strings_to_patterns : List Text → List DomainPattern
unfolding domain_string_to_pattern
domain_strings_to_patterns patterns = map domain_string_to_pattern patterns

round_trip_for :
    (t : DomainPatternType) (v : Text)
    → domain_string_to_pattern (key_of t ++ (b':' ∷ v)) ≡ record { pattern_type = t; value = v }
unfolding domain_string_to_pattern
round_trip_for suffix v = refl
round_trip_for keyword v = refl
round_trip_for full v = refl
round_trip_for regex v = refl
round_trip_for domain v = refl

-- Every list of patterns is read back from the strings that `domain_pattern_to_string` writes.
pub domain_strings_to_patterns-domain_pattern_to_string :
    (ps : List DomainPattern) → domain_strings_to_patterns (map domain_pattern_to_string ps) ≡ ps
unfolding domain_strings_to_patterns domain_pattern_to_string
domain_strings_to_patterns-domain_pattern_to_string [] = refl
domain_strings_to_patterns-domain_pattern_to_string (p ∷ ps) =
    ap₂ (λ (q : DomainPattern) (qs : List DomainPattern). q ∷ qs)
      (round_trip_for p.pattern_type p.value)
      (domain_strings_to_patterns-domain_pattern_to_string ps)
