-- ===== src/Ruleset/DomainSet/Parts.antt =====
-- Each part of a compiled domain set against a scan of its values.
use dae_rs.Prelude.{
  ◌≤◌, ◌≡◌, refl, ap, ap₂, sym, ◌∙◌, Bool, true, false, ◌||◌, List, [], ◌∷◌, arith, Option, length,
}
use dae_rs.Text.{Text, text_eq, ends_with}
use dae_rs.Text.Equality.{any, mem_text, text_eq_iff}
use dae_rs.Text.Dots.{after_dots, ends_with-dot}
use dae_rs.Text.Order.{sort, dedup, binary_search}
use dae_rs.Text.Order.Search.{binary_search-dedup}
use dae_rs.Ruleset.SuffixTrie
use dae_rs.Ruleset.SuffixTrie.Suffixes.{insert_all, contains-insert_all}
use dae_rs.Ruleset.Reference.{suffix_matches, regex_matches}
use dae_rs.Ruleset.DomainSet.{regex_compiled}

any-pointwise {ℓ} :
    {A : Type ℓ} (f g : A → Bool) (rs : List A) → ((r : A) → f r ≡ g r) → any f rs ≡ any g rs
unfolding any
any-pointwise f g [] h = refl
any-pointwise f g (r ∷ rs) h = ap₂ ◌||◌ (h r) (any-pointwise f g rs h)

-- Some of one list is in the other: from either side.
any-mem_text :
    (rs vs : List Text) → any (λ r. mem_text r vs) rs ≡ any (λ v. any (λ r. text_eq r v) rs) vs
unfolding any
any-mem_text [] vs = none_of vs
  where
    none_of : (vs : List Text) → false ≡ any (λ v. any (λ r. text_eq r v) []) vs
    none_of [] = refl
    none_of (v ∷ vs) = none_of vs
any-mem_text (r ∷ rs) vs = ap (λ b. mem_text r vs || b) (any-mem_text rs vs) ∙ joined vs
  where
    joined :
        (vs : List Text)
        → (mem_text r vs || any (λ v. any (λ r. text_eq r v) rs) vs)
          ≡ any (λ v. any (λ r. text_eq r v) (r ∷ rs)) vs
    joined [] = refl
    joined (v ∷ vs) = ground (arith, joined vs)

-- A name matches the trie exactly if it matches some value as a suffix.
pub trie_matches :
    (vs : List Text) (q : Text)
    → SuffixTrie.contains (insert_all SuffixTrie.new vs) q ≡ any (suffix_matches q) vs
unfolding suffix_matches
trie_matches vs q =
    contains-insert_all vs q
    ∙ any-mem_text (q ∷ after_dots q) vs
    ∙ any-pointwise (λ v. any (λ r. text_eq r v) (q ∷ after_dots q)) (suffix_matches q) vs
        (λ v. unfold any in ap (λ b. text_eq q v || b) (sym (ends_with-dot q v)))

pub subdomain_matches :
    (vs : List Text) (q : Text)
    → any (binary_search (dedup (sort vs))) (after_dots q) ≡ any (λ v. ends_with q (b'.' ∷ v)) vs
subdomain_matches vs q =
    any-pointwise (binary_search (dedup (sort vs))) (λ r. mem_text r vs) (after_dots q)
      (binary_search-dedup vs)
    ∙ any-mem_text (after_dots q) vs
    ∙ any-pointwise (λ v. any (λ r. text_eq r v) (after_dots q)) (λ v. ends_with q (b'.' ∷ v)) vs
        (λ v. sym (ends_with-dot q v))

module _ (regex_new : Text → Option (Text → Bool)) where
  pub regexes_match :
      (ps : List Text) (q : Text)
      → any (λ is_match. is_match q) (regex_compiled regex_new ps)
        ≡ any (λ p. regex_matches regex_new p q) ps
  unfolding any regex_compiled regex_matches
  regexes_match [] q = refl
  regexes_match (p ∷ ps) q = ground (arith, regexes_match ps q)

length-ends_with : (q s : Text) → ends_with q s ≡ true → length s ≤ length q
unfolding ends_with
length-ends_with [] s h = ground (arith, text_eq_iff [] s)
length-ends_with (c ∷ cs) s h = ground (arith, text_eq_iff (c ∷ cs) s, length-ends_with cs s)

-- A proper subdomain differs from the domain.
pub ne-ends_with : (q v : Text) → ends_with q (b'.' ∷ v) ≡ true → text_eq q v ≡ false
ne-ends_with q v h = ground (arith, text_eq_iff q v, length-ends_with q (b'.' ∷ v))
