-- ===== src/Ruleset/DomainSet.antt =====
-- control/src/ruleset/compiled.rs: `CompiledDomainSet`.
use dae_rs.Prelude.{
  Bool, true, false, ◌||◌, List, [], ◌∷◌, ◌++◌, Option, none, some, if◌then◌else◌, ◌==◌,
}
use mathlib.Core.List.{filter_map}
use dae_rs.Text.Dots.{after_dots}
use dae_rs.Text.Equality.{any}
use dae_rs.Text.Order.{sort, dedup, binary_search}
use dae_rs.Text.{Text, is_empty, to_ascii_lowercase, contains_text}
use dae_rs.Ruleset.SuffixTrie
use dae_rs.Ruleset.SuffixTrie.{SuffixTrie}
use dae_rs.Ruleset.Reference.{
  DomainPatternType, suffix, keyword, full, regex, domain, DomainPattern, normalize_qname,
  without_first_dots, without_last_dots,
}
pub mod Collect
pub mod Parts
pub mod Laws

-- `regex_compiled` is a function of `regex`, so that it is left out.
pub record CompiledDomainSet : Type 0 where
  pub suffixes : SuffixTrie
  pub fulls : List Text
  pub domains : List Text
  pub keywords : List Text
  pub regexes : List Text

abbrev pub push : Text → List Text → List Text
push v vs = if is_empty v then vs else vs ++ v ∷ []

-- One round of the loop of `compile`.
unfoldable pub add_typed : CompiledDomainSet → DomainPatternType → Text → CompiledDomainSet
unfolding is_empty to_ascii_lowercase without_first_dots without_last_dots
add_typed s suffix value =
    let v = without_first_dots value in
    if is_empty v then s else record s { suffixes = SuffixTrie.insert s.suffixes v }
add_typed s full value = record s { fulls = push (without_last_dots value) s.fulls }
add_typed s domain value = record s { domains = push (without_first_dots value) s.domains }
add_typed s keyword value = record s { keywords = push (to_ascii_lowercase value) s.keywords }
add_typed s regex value = record s { regexes = push value s.regexes }

unfoldable pub collect : CompiledDomainSet → List DomainPattern → CompiledDomainSet
unfolding add_typed
collect s [] = s
collect s (p ∷ ps) = collect (add_typed s p.pattern_type p.value) ps

abbrev pub empty_set : CompiledDomainSet
empty_set = record {
  suffixes = SuffixTrie.new;
  fulls = [];
  domains = [];
  keywords = [];
  regexes = [];
}

unfoldable pub compile : List DomainPattern → CompiledDomainSet
unfolding collect sort dedup
compile ps =
    let s = collect empty_set ps in
    record s {
      fulls = dedup (sort s.fulls);
      domains = dedup (sort s.domains);
      keywords = dedup (sort s.keywords);
      regexes = dedup (sort s.regexes);
    }

unfoldable pub domain_matches : CompiledDomainSet → Text → Bool
unfolding any after_dots binary_search
domain_matches s q = any (binary_search s.domains) (after_dots q)

module _ (regex_new : Text → Option (Text → Bool)) where
  unfoldable pub regex_compiled : List Text → List (Text → Bool)
  regex_compiled [] = []
  regex_compiled (p ∷ ps) =
      let rest = regex_compiled ps in
      elim (regex_new p) [ none ↦ rest | some is_match ↦ is_match ∷ rest ]

  unfoldable pub matches : CompiledDomainSet → Text → Bool
  unfolding normalize_qname is_empty SuffixTrie.contains binary_search domain_matches any
      contains_text regex_compiled
  matches s qname =
      let q = normalize_qname qname in
      if is_empty q
      then false
      else SuffixTrie.contains s.suffixes q
        || binary_search s.fulls q
        || domain_matches s q
        || any (contains_text q) s.keywords
        || any (λ is_match. is_match q) (regex_compiled s.regexes)
