-- ===== src/Ruleset/DomainSet/Collect.antt =====
-- What the loop of `compile` collects, by type of pattern.
use mathlib.Core.List.{append-nil, append_assoc}
use dae_rs.Prelude.{
  ◌≡◌, refl, sym, ◌∙◌, Bool, true, false, List, [], ◌∷◌, ◌++◌, if◌then◌else◌, arith,
}
use dae_rs.Text.{Text, is_empty, to_ascii_lowercase}
use dae_rs.Ruleset.SuffixTrie.Suffixes.{insert_all}
use dae_rs.Ruleset.Reference.{
  DomainPatternType, suffix, keyword, full, regex, domain, DomainPattern, without_first_dots,
  without_last_dots,
}
use dae_rs.Ruleset.DomainSet.{CompiledDomainSet, push, add_typed, collect}

-- The value that one pattern adds to the patterns of a type, if any.
unfoldable pub cleaned : DomainPatternType → Text → Text
unfolding without_first_dots without_last_dots to_ascii_lowercase
cleaned suffix v = without_first_dots v
cleaned domain v = without_first_dots v
cleaned full v = without_last_dots v
cleaned keyword v = to_ascii_lowercase v
cleaned regex v = v

unfoldable pub same_type : DomainPatternType → DomainPatternType → Bool
same_type suffix suffix = true
same_type keyword keyword = true
same_type full full = true
same_type regex regex = true
same_type domain domain = true
same_type _ _ = false

unfoldable pub keep_value : Bool → Text → List Text → List Text
unfolding is_empty
keep_value false v vs = vs
keep_value true v vs = if is_empty v then vs else v ∷ vs

unfoldable pub values_of : DomainPatternType → List DomainPattern → List Text
unfolding same_type keep_value cleaned
values_of t [] = []
values_of t (p ∷ ps) = keep_value (same_type t p.pattern_type) (cleaned t p.value) (values_of t ps)

pub record Collects (s s' : CompiledDomainSet) (ps : List DomainPattern) : Type 0 where
  pub in_trie : s'.suffixes ≡ insert_all s.suffixes (values_of suffix ps)
  pub in_fulls : s'.fulls ≡ s.fulls ++ values_of full ps
  pub in_domains : s'.domains ≡ s.domains ++ values_of domain ps
  pub in_keywords : s'.keywords ≡ s.keywords ++ values_of keyword ps
  pub in_regexes : s'.regexes ≡ s.regexes ++ values_of regex ps

push-append : (v : Text) (vs ws : List Text) → push v vs ++ ws ≡ vs ++ keep_value true v ws
unfolding is_empty keep_value
push-append [] vs ws = refl
push-append (c ∷ cs) vs ws = append_assoc vs ((c ∷ cs) ∷ []) ws

add_typed-Collects :
    (t : DomainPatternType) (v : Text) (s s' : CompiledDomainSet) (ps : List DomainPattern)
    → Collects (add_typed s t v) s' ps
    → Collects s s' (record { pattern_type = t; value = v } ∷ ps)
unfolding add_typed values_of insert_all
add_typed-Collects suffix v s s' ps c = record {
  in_trie = ground (arith, c.in_trie);
  in_fulls = ground (arith, c.in_fulls);
  in_domains = ground (arith, c.in_domains);
  in_keywords = ground (arith, c.in_keywords);
  in_regexes = ground (arith, c.in_regexes);
}
add_typed-Collects full v s s' ps c = record {
  in_trie = c.in_trie;
  in_fulls = c.in_fulls ∙ push-append (without_last_dots v) s.fulls (values_of full ps);
  in_domains = c.in_domains;
  in_keywords = c.in_keywords;
  in_regexes = c.in_regexes;
}
add_typed-Collects domain v s s' ps c = record {
  in_trie = c.in_trie;
  in_fulls = c.in_fulls;
  in_domains = c.in_domains ∙ push-append (without_first_dots v) s.domains (values_of domain ps);
  in_keywords = c.in_keywords;
  in_regexes = c.in_regexes;
}
add_typed-Collects keyword v s s' ps c = record {
  in_trie = c.in_trie;
  in_fulls = c.in_fulls;
  in_domains = c.in_domains;
  in_keywords =
      c.in_keywords ∙ push-append (to_ascii_lowercase v) s.keywords (values_of keyword ps);
  in_regexes = c.in_regexes;
}
add_typed-Collects regex v s s' ps c = record {
  in_trie = c.in_trie;
  in_fulls = c.in_fulls;
  in_domains = c.in_domains;
  in_keywords = c.in_keywords;
  in_regexes = c.in_regexes ∙ push-append v s.regexes (values_of regex ps);
}

pub collect-Collects :
    (ps : List DomainPattern) (s : CompiledDomainSet) → Collects s (collect s ps) ps
unfolding collect values_of insert_all
collect-Collects [] s = record {
  in_trie = refl;
  in_fulls = sym (append-nil s.fulls);
  in_domains = sym (append-nil s.domains);
  in_keywords = sym (append-nil s.keywords);
  in_regexes = sym (append-nil s.regexes);
}
collect-Collects (p ∷ ps) s =
    add_typed-Collects p.pattern_type p.value s _ ps
      (collect-Collects ps (add_typed s p.pattern_type p.value))
