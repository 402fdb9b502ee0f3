-- ===== src/Ruleset/Reference.antt =====
-- control/src/ruleset/refparse.rs and the pattern types of ruleset/types.rs. The crate regex is a
-- parameter: `regex_new p` is `Regex::new(p).ok()`, given by its `is_match`.
use dae_rs.Prelude.{
  Bool, true, false, not, ◌&&◌, ◌||◌, List, ◌∷◌, ◌++◌, Option, none, some, ◌==◌, ℕ,
}
use dae_rs.Text.{
  Text, text, text_eq, is_empty, trim, trim_start_by, trim_end_by, to_ascii_lowercase, strip_prefix,
  ends_with, contains_text,
}
use dae_rs.Text.Equality.{any}

pub data DomainPatternType : Type 0 where
  suffix keyword full regex domain : DomainPatternType

pub record DomainPattern : Type 0 where
  pub pattern_type : DomainPatternType
  pub value : Text

pub data RuleSetRef : Type 0 where
  set_ref plain : Text → RuleSetRef

abbrev pub is_dot : ℕ → Bool
is_dot c = c == b'.'

unfoldable pub parse_ref : Text → RuleSetRef
unfolding trim strip_prefix
parse_ref value =
    let v = trim value in
    elim (strip_prefix (text "set:") v) [ some name ↦ set_ref (trim name) | none ↦ plain v ]

unfoldable pub is_ruleset_ref : Text → Bool
unfolding parse_ref
is_ruleset_ref value = elim (parse_ref value) [ set_ref name ↦ true | plain v ↦ false ]

unfoldable pub normalize_qname : Text → Text
unfolding trim trim_end_by to_ascii_lowercase
normalize_qname qname = to_ascii_lowercase (trim_end_by is_dot (trim qname))

-- `trim_start_matches('.').to_ascii_lowercase()`, and the same at the end.
unfoldable pub without_first_dots : Text → Text
unfolding trim_start_by to_ascii_lowercase
without_first_dots v = to_ascii_lowercase (trim_start_by is_dot v)

unfoldable pub without_last_dots : Text → Text
unfolding trim_end_by to_ascii_lowercase
without_last_dots v = to_ascii_lowercase (trim_end_by is_dot v)

unfoldable pub suffix_matches : Text → Text → Bool
unfolding text_eq ends_with
suffix_matches q v = text_eq q v || ends_with q (b'.' ∷ v)

module _ (regex_new : Text → Option (Text → Bool)) where
  -- `Regex::new(..).map(..).unwrap_or(false)`.
  unfoldable pub regex_matches : Text → Text → Bool
  regex_matches p q = elim (regex_new p) [ none ↦ false | some is_match ↦ is_match q ]

  -- The match of `match_domain_pattern`, on a normalized name.
  unfoldable pub match_typed : DomainPatternType → Text → Text → Bool
  unfolding suffix_matches without_first_dots without_last_dots regex_matches is_empty contains_text
  match_typed suffix q value = suffix_matches q (without_first_dots value)
  match_typed domain q value =
      let v = without_first_dots value in not (text_eq q v) && ends_with q (b'.' ∷ v)
  match_typed full q value = text_eq q (without_last_dots value)
  match_typed keyword q value =
      let v = to_ascii_lowercase value in not (is_empty v) && contains_text q v
  match_typed regex q value = regex_matches value q

  unfoldable pub match_domain_pattern : Text → DomainPattern → Bool
  unfolding match_typed normalize_qname
  match_domain_pattern qname p = match_typed p.pattern_type (normalize_qname qname) p.value

  unfoldable pub match_domain_patterns : Text → List DomainPattern → Bool
  unfolding match_domain_pattern any
  match_domain_patterns qname ps = any (match_domain_pattern qname) ps

abbrev pub key_of : DomainPatternType → Text
key_of suffix = text "suffix"
key_of full = text "full"
key_of regex = text "regex"
key_of domain = text "domain"
key_of keyword = text "keyword"

unfoldable pub domain_pattern_to_string : DomainPattern → Text
domain_pattern_to_string p = key_of p.pattern_type ++ (b':' ∷ p.value)
