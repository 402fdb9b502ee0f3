-- ===== src/Ruleset/Lists/RoundTrip.antt =====
-- A list of patterns that is written line by line is read back.
use dae_rs.Prelude.{
  ℕ, suc, ◌≡◌, refl, ap, ◌∙◌, Bool, true, false, ◌&&◌, List, [], ◌∷◌, ◌++◌, none, some, ◌==◌,
  if◌then◌else◌, arith, Bool-cases, inl, inr,
}
use dae_rs.Text.{
  Text, text, text_eq, is_empty, is_whitespace, trim, trim_start_by, trim_end_by, to_ascii_lower,
  to_ascii_lowercase, starts_with,
}
use dae_rs.Text.Equality.{any}
use dae_rs.Ruleset.Reference.{
  DomainPatternType, suffix, keyword, full, regex, domain, DomainPattern, key_of,
  domain_pattern_to_string,
}
use dae_rs.Ruleset.Lists.{
  ok, has_prefix, native_domain, parse_domain_line, rule_domain, parse_rule_domain, is_skipped,
  line_is_rule_keyword, non_domain_rule_prefixes, domain_line, strip_cr, lines_from, parse_lines,
  parse_domain_list, strip_rule_keyword,
}
use dae_rs.Ruleset.Lists.Slices.{
  AllAscii, AllAscii-is_ascii, is_ascii, strip_chars, strip_rule_keyword-strip_chars,
}
use dae_rs.Ruleset.Lists.Ascii.{prefix_chars, has_prefix-prefix_chars}
use dae_rs.Ruleset.Lists.WideCharacters.{lines_from-first}

unfoldable pub list_text : List DomainPattern → Text
unfolding domain_pattern_to_string
list_text [] = []
list_text (p ∷ ps) = domain_pattern_to_string p ++ 10 ∷ list_text ps

-- A value that a line can hold: ASCII, not empty, no space at its ends, on one line.
abbrev pub IsValue : Text → Type 0
IsValue v =
    AllAscii v
    × (is_empty v ≡ false)
    × (trim_start_by is_whitespace v ≡ v)
    × (trim_end_by is_whitespace v ≡ v)
    × (any (λ c. c == 10) v ≡ false)

abbrev pub AllValues : List DomainPattern → Type 0
AllValues [] = Unit {0}
AllValues (p ∷ ps) = IsValue p.value × AllValues ps

abbrev line_of : DomainPatternType → Text → Text
line_of t v = key_of t ++ b':' ∷ v

trim_end-strip_cr :
    (s : Text) → trim_end_by is_whitespace (strip_cr s) ≡ trim_end_by is_whitespace s
unfolding trim_end_by is_empty
trim_end-strip_cr [] = refl
trim_end-strip_cr (c ∷ []) = elim (Bool-cases (c == 13)) [
  | inl e ↦ unfold is_whitespace in ground (arith, e)
  | inr e ↦ rw e refl
]
trim_end-strip_cr (c ∷ d ∷ cs) =
    ap (λ (r : Text). if is_whitespace c && is_empty r then [] else c ∷ r)
      (trim_end-strip_cr (d ∷ cs))

-- A text behind which a trimmed text stands.
trim_end-append :
    (s v : Text)
    → is_empty v ≡ false
    → trim_end_by is_whitespace v ≡ v
    → trim_end_by is_whitespace (s ++ v) ≡ s ++ v
unfolding trim_end_by is_empty
trim_end-append [] v n e = e
trim_end-append (c ∷ cs) v n e = rw (trim_end-append cs v n e) (kept cs)
  where
    kept :
        (cs : Text)
        → (if is_whitespace c && is_empty (cs ++ v) then [] else c ∷ (cs ++ v)) ≡ c ∷ (cs ++ v)
    kept [] = rw n (ground arith)
    kept (d ∷ ds) = ground arith

trim_line :
    (t : DomainPatternType) (v : Text) → IsValue v → trim (strip_cr (line_of t v)) ≡ line_of t v
unfolding trim
trim_line t v h =
    starts t
    ∙ trim_end-strip_cr (line_of t v)
    ∙ trim_end-append (key_of t) (b':' ∷ v) refl (trim_end-append (b':' ∷ []) v h.1 h.3)
  where
    starts :
        (t : DomainPatternType)
        → trim (strip_cr (line_of t v)) ≡ trim_end_by is_whitespace (strip_cr (line_of t v))
    starts suffix = unfold trim_start_by in refl
    starts keyword = unfold trim_start_by in refl
    starts full = unfold trim_start_by in refl
    starts regex = unfold trim_start_by in refl
    starts domain = unfold trim_start_by in refl

AllAscii-append : (s v : Text) → AllAscii s → AllAscii v → AllAscii (s ++ v)
AllAscii-append [] v h k = k
AllAscii-append (c ∷ cs) v h k = (h.0, AllAscii-append cs v h.1 k)

any-append :
    (p : ℕ → Bool) (s v : Text) → any p s ≡ false → any p v ≡ false → any p (s ++ v) ≡ false
unfolding any
any-append p [] v h k = k
any-append p (c ∷ cs) v h k = ground (arith, h, any-append p cs v (ground (arith, h)) k)

-- The line is no rule of another format.
parse_rule_domain-none :
    (line : Text)
    → strip_chars (text "DOMAIN-SUFFIX") line ≡ none
    → strip_chars (text "DOMAIN-KEYWORD") line ≡ none
    → strip_chars (text "DOMAIN-REGEX") line ≡ none
    → strip_chars (text "DOMAIN") line ≡ none
    → parse_rule_domain line ≡ ok none
unfolding parse_rule_domain rule_domain
parse_rule_domain-none line a b c d =
    rw
      (
        plain (text "DOMAIN-SUFFIX") refl a,
        plain (text "DOMAIN-KEYWORD") refl b,
        plain (text "DOMAIN-REGEX") refl c,
        plain (text "DOMAIN") refl d,
      )
      refl
  where
    plain :
        (kw : Text)
        → is_ascii kw ≡ true
        → strip_chars kw line ≡ none
        → strip_rule_keyword line kw ≡ ok none
    plain kw e h = strip_rule_keyword-strip_chars line kw (AllAscii-is_ascii kw e) ∙ ap ok h

no_rule : (t : DomainPatternType) (v : Text) → parse_rule_domain (line_of t v) ≡ ok none
unfolding strip_chars
no_rule suffix v = parse_rule_domain-none (line_of suffix v) refl refl refl refl
no_rule keyword v = parse_rule_domain-none (line_of keyword v) refl refl refl refl
no_rule full v = parse_rule_domain-none (line_of full v) refl refl refl refl
no_rule regex v = parse_rule_domain-none (line_of regex v) refl refl refl refl
no_rule domain v = parse_rule_domain-none (line_of domain v) refl refl refl refl

no_keyword :
    (t : DomainPatternType) (v : Text)
    → line_is_rule_keyword (line_of t v) non_domain_rule_prefixes ≡ false
unfolding line_is_rule_keyword any text_eq starts_with to_ascii_lowercase to_ascii_lower
no_keyword suffix v = refl
no_keyword keyword v = refl
no_keyword full v = refl
no_keyword regex v = refl
no_keyword domain v = refl

not_skipped : (t : DomainPatternType) (v : Text) → is_skipped (line_of t v) ≡ false
unfolding is_skipped is_empty
not_skipped suffix v = refl
not_skipped keyword v = refl
not_skipped full v = refl
not_skipped regex v = refl
not_skipped domain v = refl

key-AllAscii : (t : DomainPatternType) (v : Text) → AllAscii v → AllAscii (line_of t v)
key-AllAscii t v h = AllAscii-append (key_of t) (b':' ∷ v) (ascii t) (omega arith, h)
  where
    ascii : (t : DomainPatternType) → AllAscii (key_of t)
    ascii suffix = AllAscii-is_ascii (text "suffix") refl
    ascii keyword = AllAscii-is_ascii (text "keyword") refl
    ascii full = AllAscii-is_ascii (text "full") refl
    ascii regex = AllAscii-is_ascii (text "regex") refl
    ascii domain = AllAscii-is_ascii (text "domain") refl

has :
    (t : DomainPatternType) (v p : Text)
    → IsValue v
    → has_prefix (line_of t v) p ≡ ok (prefix_chars p (line_of t v))
has t v p h = has_prefix-prefix_chars (line_of t v) p (key-AllAscii t v h.0)

-- The native line with its prefix.
parse_domain_line-line_of :
    (t : DomainPatternType) (v : Text)
    → IsValue v
    → parse_domain_line (line_of t v) ≡ ok (some (record { pattern_type = t; value = v }))
unfolding parse_domain_line native_domain prefix_chars to_ascii_lower trim
parse_domain_line-line_of full v h = rw (has full v (text "full:") h, h.2, h.3, h.1) refl
parse_domain_line-line_of domain v h =
    rw (has domain v (text "full:") h, has domain v (text "domain:") h, h.2, h.3, h.1) refl
parse_domain_line-line_of suffix v h =
    rw
      (
        has suffix v (text "full:") h,
        has suffix v (text "domain:") h,
        has suffix v (text "suffix:") h,
        h.2,
        h.3,
        h.1,
      )
      refl
parse_domain_line-line_of keyword v h =
    rw
      (
        has keyword v (text "full:") h,
        has keyword v (text "domain:") h,
        has keyword v (text "keyword:") h,
        h.2,
        h.3,
        h.1,
      )
      refl
parse_domain_line-line_of regex v h =
    rw
      (
        has regex v (text "full:") h,
        has regex v (text "domain:") h,
        has regex v (text "suffix:") h,
        has regex v (text "keyword:") h,
        has regex v (text "regex:") h,
        h.2,
        h.3,
        h.1,
      )
      refl

domain_line-line_of :
    (number : ℕ) (t : DomainPatternType) (v : Text)
    → IsValue v
    → domain_line number (line_of t v) ≡ ok (some (record { pattern_type = t; value = v }))
unfolding domain_line
domain_line-line_of number t v h =
    rw (not_skipped t v, no_rule t v, no_keyword t v, parse_domain_line-line_of t v h) refl

one_line : (t : DomainPatternType) (v : Text) → IsValue v → any (λ c. c == 10) (line_of t v) ≡ false
one_line t v h = any-append (λ c. c == 10) (key_of t) (b':' ∷ v) (key t) (colon h.4)
  where
    key : (t : DomainPatternType) → any (λ c. c == 10) (key_of t) ≡ false
    key suffix = unfold any in refl
    key keyword = unfold any in refl
    key full = unfold any in refl
    key regex = unfold any in refl
    key domain = unfold any in refl

    colon : any (λ c. c == 10) v ≡ false → any (λ c. c == 10) (b':' ∷ v) ≡ false
    colon h = unfold any in h

parse_lines-list_text :
    (idx : ℕ) (ps : List DomainPattern)
    → AllValues ps
    → parse_lines domain_line idx (lines_from [] (list_text ps)) ≡ ok ps
unfolding parse_lines list_text
parse_lines-list_text idx [] h = unfold lines_from is_empty in refl
parse_lines-list_text idx (p ∷ ps) h =
    let line = line_of p.pattern_type p.value in
    ap (parse_lines domain_line idx)
      (lines_from-first [] line (list_text ps) (one_line p.pattern_type p.value h.0))
    ∙ rw
        (
          trim_line p.pattern_type p.value h.0,
          parse_lines,
          domain_line-line_of (suc idx) p.pattern_type p.value h.0,
          parse_lines-list_text (suc idx) ps h.1,
        )
        refl

-- The patterns whose values a line can hold (ASCII, not empty, with no space at their ends and on one line) are
-- read back from the list of their texts, one on each line.
pub parse_domain_list-list_text :
    (ps : List DomainPattern) → AllValues ps → parse_domain_list (list_text ps) ≡ ok ps
unfolding parse_domain_list
parse_domain_list-list_text ps h = parse_lines-list_text 0 ps h
