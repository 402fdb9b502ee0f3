-- ===== src/Ruleset/QnameValue.antt =====
-- control/src/ruleset/refparse.rs: `match_qname_value`.
use dae_rs.Prelude.{◌≡◌, refl, ap, ◌∙◌, Bool, not, ◌&&◌, ◌∷◌, ◌++◌, Option, none, some}
use dae_rs.Text.{
  Text, text, text_eq, is_empty, trim, strip_prefix, to_ascii_lowercase, contains_text,
}
use dae_rs.Ruleset.Reference.{
  DomainPatternType, suffix, keyword, full, regex, domain, DomainPattern, normalize_qname,
  without_first_dots, without_last_dots, suffix_matches, regex_matches, match_typed,
  match_domain_pattern, key_of, domain_pattern_to_string,
}

abbrev pub or_else {ℓ} : {A : Type ℓ} → Option A → Option A → Option A
or_else (some a) o = some a
or_else none o = o

-- `match` on an option.
abbrev pub on_some {ℓ κ} : {A : Type ℓ} {B : Type κ} → Option A → (A → B) → B → B
on_some (some a) f b = f a
on_some none f b = b

module _ (regex_new : Text → Option (Text → Bool)) where
  -- With the name normalized and the value trimmed.
  unfoldable pub match_trimmed : Text → Text → Bool
  unfolding strip_prefix suffix_matches without_first_dots without_last_dots text_eq trim
      to_ascii_lowercase is_empty contains_text regex_matches
  match_trimmed q v =
      on_some (or_else (strip_prefix (text "suffix:") v) (strip_prefix (text "domain:") v))
        (λ rest. suffix_matches q (without_first_dots rest))
        (on_some (strip_prefix (text "full:") v) (λ rest. text_eq q (without_last_dots (trim rest)))
          (on_some (strip_prefix (text "keyword:") v)
            (λ rest.
              let r = to_ascii_lowercase (trim rest) in not (is_empty r) && contains_text q r)
            (on_some (strip_prefix (text "regex:") v)
              (λ rest. regex_matches regex_new (trim rest) q)
              (suffix_matches q (without_first_dots v)))))

  unfoldable pub match_qname_value : Text → Text → Bool
  unfolding normalize_qname trim match_trimmed
  match_qname_value qname value = match_trimmed (normalize_qname qname) (trim value)

  -- A value of the type `domain` is matched as one of the type `suffix`.
  abbrev pub as_suffix : DomainPatternType → DomainPatternType
  as_suffix domain = suffix
  as_suffix t = t

  match_trimmed-typed :
      (t : DomainPatternType) (q v : Text)
      → trim v ≡ v
      → match_trimmed q (key_of t ++ (b':' ∷ v)) ≡ match_typed regex_new (as_suffix t) q v
  unfolding match_trimmed match_typed
  match_trimmed-typed suffix q v h = refl
  match_trimmed-typed domain q v h = refl
  match_trimmed-typed full q v h = ap (λ r. text_eq q (without_last_dots r)) h
  match_trimmed-typed keyword q v h =
      ap (λ r. not (is_empty (to_ascii_lowercase r)) && contains_text q (to_ascii_lowercase r)) h
  match_trimmed-typed regex q v h = ap (λ r. regex_matches regex_new r q) h

  -- A value written by `domain_pattern_to_string`, with no space at its ends nor at those of the pattern's
  -- value, is matched as the pattern is, but that a pattern of the type `domain` is matched as one of the
  -- type `suffix`, which matches the name itself too.
  pub match_qname_value-domain_pattern_to_string :
      (qname : Text) (p : DomainPattern)
      → trim p.value ≡ p.value
      → trim (domain_pattern_to_string p) ≡ domain_pattern_to_string p
      → match_qname_value qname (domain_pattern_to_string p)
        ≡ match_domain_pattern regex_new qname
            (record p { pattern_type = as_suffix p.pattern_type })
  unfolding match_qname_value match_domain_pattern domain_pattern_to_string
  match_qname_value-domain_pattern_to_string qname p h k =
      ap (match_trimmed (normalize_qname qname)) k
      ∙ match_trimmed-typed p.pattern_type (normalize_qname qname) p.value h
