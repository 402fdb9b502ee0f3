-- ===== src/Ruleset/Lists/WideCharacters.antt =====
-- Domain lists with a line that begins with characters of three bytes.
use dae_rs.Prelude.{
  ℕ, ◌-◌, ◌≤◌, ◌<◌, ◌≡◌, refl, ap, ◌∙◌, Bool, true, false, ◌&&◌, List, [], ◌∷◌, ◌++◌, none, ltb,
  leb, ◌==◌, length, length-append, append_assoc, append-nil, arith,
}
use dae_rs.Text.{
  Text, text, text_eq, is_empty, trim, to_ascii_lower, to_ascii_lowercase, starts_with,
}
use dae_rs.Text.Equality.{any}
use dae_rs.Text.Utf8.{encode_char, as_bytes}
use dae_rs.Ruleset.Lists.{
  ok, panicked, ◌>>=◌, cons_some, slice_to, slice_is, has_prefix, native_domain, parse_domain_line,
  rule_domain, parse_rule_domain, is_skipped, line_is_rule_keyword, non_domain_rule_prefixes,
  strip_rule_keyword, domain_line, strip_cr, lines_from, parse_lines, parse_domain_list,
  push_option,
}
use dae_rs.Ruleset.Lists.Slices.{
  AllAscii-is_ascii, is_ascii, strip_chars, strip_rule_keyword-strip_chars, width, slice_to-cons,
}

width_three : (c : ℕ) → 0x800 ≤ c → c < 0x1_0000 → width c ≡ 3
unfolding encode_char
width_three c h k = ground (arith, h, k)

width_wide : (d : ℕ) → 0x800 ≤ d → 3 ≤ width d
unfolding encode_char
width_wide d h = ground (arith, h)

lower_wide : (c : ℕ) → 0x800 ≤ c → to_ascii_lower c ≡ c
unfolding to_ascii_lower
lower_wide c h = ground (arith, h)

strip_chars-wide :
    (c k : ℕ) (cs ks : Text) → 0x800 ≤ c → k < 128 → strip_chars (k ∷ ks) (c ∷ cs) ≡ none
unfolding strip_chars to_ascii_lower
strip_chars-wide c k cs ks h l = ground (arith, h, l)

-- Keywords that begin with a character that is ASCII.
abbrev ascii_heads : List Text → Bool
ascii_heads [] = true
ascii_heads ([] ∷ ks) = false
ascii_heads ((k ∷ kw) ∷ ks) = ltb k 128 && ascii_heads ks

line_is_rule_keyword-wide :
    (c : ℕ) (cs : Text) (ks : List Text)
    → 0x800 ≤ c
    → ascii_heads ks ≡ true
    → line_is_rule_keyword (c ∷ cs) ks ≡ false
unfolding line_is_rule_keyword any text_eq starts_with to_ascii_lowercase
line_is_rule_keyword-wide c cs [] h e = refl
line_is_rule_keyword-wide c cs ([] ∷ ks) h e = absurd (cc e)
line_is_rule_keyword-wide c cs ((k ∷ kw) ∷ ks) h e =
    ground (arith, h, lower_wide c h, line_is_rule_keyword-wide c cs ks h (ground (arith, e)))

strip_rule_keyword-wide :
    (c : ℕ) (cs kw : Text)
    → 0x800 ≤ c
    → is_empty kw ≡ false
    → is_ascii kw ≡ true
    → strip_rule_keyword (c ∷ cs) kw ≡ ok none
unfolding is_empty
strip_rule_keyword-wide c cs [] h n e = absurd (cc n)
strip_rule_keyword-wide c cs (k ∷ ks) h n e =
    let a = AllAscii-is_ascii (k ∷ ks) e in
    strip_rule_keyword-strip_chars (c ∷ cs) (k ∷ ks) a ∙ ap ok (strip_chars-wide c k cs ks h a.0)

module _ (c d : ℕ) (cs : Text) (three : 0x800 ≤ c) (less : c < 0x1_0000) (wide : 0x800 ≤ d) where
  abbrev line : Text
  line = c ∷ d ∷ cs

  slice_five : slice_to 5 line ≡ none
  slice_five =
      let w = width_three c three less in
      let two : 5 - width c ≡ 2 = omega (arith, w) in
      slice_to-cons 5 c (d ∷ cs) (omega arith) (omega (arith, w))
      ∙ ap (λ m. cons_some c (slice_to m (d ∷ cs))) two
      ∙ (unfold slice_to in ground (arith, width_wide d wide))

  bytes_five : leb 5 (length (as_bytes line)) ≡ true
  unfolding as_bytes
  bytes_five = ground (
    arith,
    length-append (encode_char c) (encode_char d ++ as_bytes cs),
    length-append (encode_char d) (as_bytes cs),
    width_three c three less,
    width_wide d wide,
  )

  is_skipped_wide : is_skipped line ≡ false
  unfolding is_skipped is_empty
  is_skipped_wide = ground (arith, three)

  no_rule :
      (kw : Text) → is_empty kw ≡ false → is_ascii kw ≡ true → strip_rule_keyword line kw ≡ ok none
  no_rule kw n e = strip_rule_keyword-wide c (d ∷ cs) kw three n e

  parse_rule_domain_wide : parse_rule_domain line ≡ ok none
  unfolding parse_rule_domain rule_domain is_empty
  parse_rule_domain_wide =
      rw
        (
          no_rule (text "DOMAIN-SUFFIX") refl refl,
          no_rule (text "DOMAIN-KEYWORD") refl refl,
          no_rule (text "DOMAIN-REGEX") refl refl,
          no_rule (text "DOMAIN") refl refl,
        )
        refl

  parse_domain_line_wide : parse_domain_line line ≡ panicked
  unfolding parse_domain_line native_domain has_prefix slice_is
  parse_domain_line_wide = rw (bytes_five, slice_is, slice_five) refl

  domain_line-panicked : (number : ℕ) → domain_line number line ≡ panicked
  unfolding domain_line
  domain_line-panicked number =
      rw
        (
          is_skipped_wide,
          parse_rule_domain_wide,
          line_is_rule_keyword-wide c (d ∷ cs) non_domain_rule_prefixes three refl,
          parse_domain_line_wide,
        )
        refl

-- The first line of a text.
pub lines_from-first :
    (current s rest : Text)
    → any (λ c. c == 10) s ≡ false
    → lines_from current (s ++ 10 ∷ rest) ≡ strip_cr (current ++ s) ∷ lines_from [] rest
unfolding lines_from any
lines_from-first current [] rest h = rw (append-nil current) refl
lines_from-first current (c ∷ cs) rest h = ground (
  arith,
  lines_from-first (current ++ c ∷ []) cs rest (ground (arith, h)),
  append_assoc current (c ∷ []) cs,
)

-- Where the first line of a domain list, without its spaces, begins with a character that takes three bytes
-- and one that takes three or four (two ideographs, say), `parse_domain_list` panics, whatever
-- follows: byte 5, where the prefix `full:` would end, is inside the second character.
pub parse_domain_list-panicked :
    (raw rest : Text) (c d : ℕ) (cs : Text)
    → any (λ c. c == 10) raw ≡ false
    → trim (strip_cr raw) ≡ c ∷ d ∷ cs
    → 0x800 ≤ c
    → c < 0x1_0000
    → 0x800 ≤ d
    → parse_domain_list (raw ++ 10 ∷ rest) ≡ panicked
unfolding parse_domain_list parse_lines
parse_domain_list-panicked raw rest c d cs n t three less wide =
    ap (parse_lines domain_line 0) (lines_from-first [] raw rest n)
    ∙ ap
        (λ (line : Text). domain_line 1 line >>= λ found.
          parse_lines domain_line 1 (lines_from [] rest) >>= λ more. ok (push_option found more))
        t
    ∙ rw (domain_line-panicked c d cs three less wide 1) refl
