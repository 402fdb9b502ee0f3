-- ===== src/Ruleset/DomainSet/Laws.antt =====
-- `CompiledDomainSet::matches` against the linear scan `match_domain_patterns`.
use mathlib.Core.Bool.{false≢true}
use dae_rs.Prelude.{
  ℕ, ◌≡◌, refl, ap, sym, ◌∙◌, Bool, true, false, not, ◌&&◌, ◌||◌, List, [], ◌∷◌, if◌then◌else◌,
  arith, Option, inl, inr, Bool-cases,
}
use dae_rs.Text.{
  Text, text_eq, is_empty, to_ascii_lowercase, trim, trim_end_by, ends_with, contains_text,
}
use dae_rs.Text.Equality.{any}
use dae_rs.Text.Dots.{after_dots}
use dae_rs.Text.Order.{sort, dedup, binary_search, any-sort, any-dedup}
use dae_rs.Text.Order.Search.{binary_search-dedup}
use dae_rs.Ruleset.SuffixTrie
use dae_rs.Ruleset.SuffixTrie.{SuffixTrie}
use dae_rs.Ruleset.Reference.{
  DomainPatternType, suffix, keyword, full, regex, domain, DomainPattern, is_dot, normalize_qname,
  without_first_dots, without_last_dots, suffix_matches, regex_matches, match_typed,
  match_domain_pattern, match_domain_patterns,
}
use dae_rs.Ruleset.DomainSet.{compile, domain_matches, regex_compiled, matches, collect, empty_set}
use dae_rs.Ruleset.DomainSet.Collect.{Collects, collect-Collects, values_of, keep_value}
use dae_rs.Ruleset.DomainSet.Parts.{trie_matches, subdomain_matches, regexes_match, ne-ends_with}

trimmed_end :
    (c : ℕ) (r : Text)
    → ends_with (to_ascii_lowercase r) (b'.' ∷ []) ≡ false
    → ends_with (to_ascii_lowercase (if is_dot c && is_empty r then [] else c ∷ r)) (b'.' ∷ [])
      ≡ false
unfolding ends_with to_ascii_lowercase text_eq is_empty
trimmed_end c [] h = ground arith
trimmed_end c (d ∷ ds) h = ground arith

-- A normalized name does not end in a dot.
ends_with_dot-trim :
    (s : Text) → ends_with (to_ascii_lowercase (trim_end_by is_dot s)) (b'.' ∷ []) ≡ false
unfolding trim_end_by
ends_with_dot-trim [] = unfold ends_with to_ascii_lowercase text_eq in refl
ends_with_dot-trim (c ∷ cs) = trimmed_end c (trim_end_by is_dot cs) (ends_with_dot-trim cs)

any-keep_value :
    (f : Text → Bool) (v : Text) (vs : List Text)
    → any f (keep_value true v vs) ≡ (not (is_empty v) && f v || any f vs)
unfolding any keep_value
any-keep_value f v vs = ground arith

abbrev NoEmptyRegex : DomainPatternType → Text → Type 0
NoEmptyRegex regex v = is_empty v ≡ false
NoEmptyRegex _ v = Unit {0}

-- No regex pattern is the empty text.
abbrev pub AllRegexes : List DomainPattern → Type 0
AllRegexes [] = Unit {0}
AllRegexes (p ∷ ps) = NoEmptyRegex p.pattern_type p.value × AllRegexes ps

module _ (regex_new : Text → Option (Text → Bool)) (q : Text) where
  -- The five scans over the values of each type.
  hits : List DomainPattern → Bool
  hits ps =
      any (suffix_matches q) (values_of suffix ps)
      || any (text_eq q) (values_of full ps)
      || any (λ v. ends_with q (b'.' ∷ v)) (values_of domain ps)
      || any (contains_text q) (values_of keyword ps)
      || any (λ p. regex_matches regex_new p q) (values_of regex ps)

  module _ (named : is_empty q ≡ false) (no_dot : ends_with q (b'.' ∷ []) ≡ false) where
    ne-empty : (w : Text) → is_empty w ≡ true → text_eq q w ≡ false
    unfolding text_eq is_empty
    ne-empty [] e = elim (Bool-cases (is_empty q)) [
      | inl f ↦ absurd (false≢true (sym named ∙ f))
      | inr f ↦ not_nil q f
    ]
      where
        not_nil : (s : Text) → is_empty s ≡ false → text_eq s [] ≡ false
        not_nil [] f = absurd (false≢true (sym f))
        not_nil (c ∷ cs) f = refl
    ne-empty (c ∷ cs) e = absurd (false≢true e)

    ends_with-empty : (w : Text) → is_empty w ≡ true → ends_with q (b'.' ∷ w) ≡ false
    unfolding is_empty
    ends_with-empty [] e = no_dot
    ends_with-empty (c ∷ cs) e = absurd (false≢true e)

    suffix_matches-empty : (w : Text) → is_empty w ≡ true → suffix_matches q w ≡ false
    unfolding suffix_matches
    suffix_matches-empty w e = rw (ne-empty w e, ends_with-empty w e)

    hits-cons :
        (t : DomainPatternType) (v : Text) (ps : List DomainPattern)
        → NoEmptyRegex t v
        → hits (record { pattern_type = t; value = v } ∷ ps)
          ≡ (match_typed regex_new t q v || hits ps)
    unfolding hits values_of match_typed
    hits-cons suffix v ps r =
        let w = without_first_dots v in
        ground
          (arith, any-keep_value (suffix_matches q) w (values_of suffix ps), suffix_matches-empty w)
    hits-cons full v ps r =
        let w = without_last_dots v in
        ground (arith, any-keep_value (text_eq q) w (values_of full ps), ne-empty w)
    hits-cons domain v ps r =
        let w = without_first_dots v in
        ground (
          arith,
          any-keep_value (λ v. ends_with q (b'.' ∷ v)) w (values_of domain ps),
          ends_with-empty w,
          ne-ends_with q w,
        )
    hits-cons keyword v ps r =
        ground
          (arith, any-keep_value (contains_text q) (to_ascii_lowercase v) (values_of keyword ps))
    hits-cons regex v ps r =
        ground (arith, any-keep_value (λ p. regex_matches regex_new p q) v (values_of regex ps))

    hits-scan :
        (ps : List DomainPattern)
        → AllRegexes ps
        → hits ps ≡ any (λ p. match_typed regex_new p.pattern_type q p.value) ps
    unfolding any
    hits-scan [] r = unfold hits values_of in refl
    hits-scan (p ∷ ps) r =
        hits-cons p.pattern_type p.value ps r.0
        ∙ ap (λ b. match_typed regex_new p.pattern_type q p.value || b) (hits-scan ps r.1)

module _ (regex_new : Text → Option (Text → Bool)) where
  module _ (ps : List DomainPattern) (q : Text) where
    collected : Collects empty_set (collect empty_set ps) ps
    collected = collect-Collects ps empty_set

    suffixes_hit :
        SuffixTrie.contains (compile ps).suffixes q ≡ any (suffix_matches q) (values_of suffix ps)
    unfolding compile
    suffixes_hit =
        ap (λ (t : SuffixTrie). SuffixTrie.contains t q) collected.in_trie
        ∙ trie_matches (values_of suffix ps) q

    fulls_hit : binary_search (compile ps).fulls q ≡ any (text_eq q) (values_of full ps)
    unfolding compile
    fulls_hit =
        ap (λ (vs : List Text). binary_search (dedup (sort vs)) q) collected.in_fulls
        ∙ binary_search-dedup (values_of full ps) q

    domains_hit :
        domain_matches (compile ps) q ≡ any (λ v. ends_with q (b'.' ∷ v)) (values_of domain ps)
    unfolding compile domain_matches
    domains_hit =
        ap (λ (vs : List Text). any (binary_search (dedup (sort vs))) (after_dots q))
          collected.in_domains
        ∙ subdomain_matches (values_of domain ps) q

    keywords_hit :
        any (contains_text q) (compile ps).keywords ≡ any (contains_text q) (values_of keyword ps)
    unfolding compile
    keywords_hit =
        ap (λ (vs : List Text). any (contains_text q) (dedup (sort vs))) collected.in_keywords
        ∙ any-dedup (contains_text q) (sort (values_of keyword ps))
        ∙ any-sort (contains_text q) (values_of keyword ps)

    regexes_hit :
        any (λ is_match. is_match q) (regex_compiled regex_new (compile ps).regexes)
        ≡ any (λ p. regex_matches regex_new p q) (values_of regex ps)
    unfolding compile
    regexes_hit =
        regexes_match regex_new (dedup (sort (collect empty_set ps).regexes)) q
        ∙ any-dedup (λ p. regex_matches regex_new p q) (sort (collect empty_set ps).regexes)
        ∙ any-sort (λ p. regex_matches regex_new p q) (collect empty_set ps).regexes
        ∙ ap (any (λ p. regex_matches regex_new p q)) collected.in_regexes

  -- The compiled set tests the values of each type.
  matches-hits :
      (ps : List DomainPattern) (qname : Text)
      → matches regex_new (compile ps) qname ≡ (
          if is_empty (normalize_qname qname)
          then false
          else hits regex_new (normalize_qname qname) ps)
  unfolding matches hits
  matches-hits ps qname =
      let q = normalize_qname qname in
      λ i.
        if is_empty q
        then false
        else suffixes_hit ps q i
          || fulls_hit ps q i
          || domains_hit ps q i
          || keywords_hit ps q i
          || regexes_hit ps q i

  -- For a name that is not empty once normalized, and a list with no empty regex pattern, the
  -- compiled set (trie, sorted vectors, binary search) matches exactly when the linear scan does.
  pub matches-scan :
      (ps : List DomainPattern) (qname : Text)
      → is_empty (normalize_qname qname) ≡ false
      → AllRegexes ps
      → matches regex_new (compile ps) qname ≡ match_domain_patterns regex_new qname ps
  unfolding match_domain_patterns match_domain_pattern
  matches-scan ps qname e r =
      matches-hits ps qname
      ∙ (rw e (
          hits-scan regex_new (normalize_qname qname) e
            (unfold normalize_qname in ends_with_dot-trim (trim qname)) ps r))
