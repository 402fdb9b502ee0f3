-- ===== src/Ruleset/Lists.antt =====
-- control/src/ruleset/list.rs. A slice `line[..n]` counts bytes: where byte `n` is inside a character
-- the source panics.
use dae_rs.Prelude.{
  ℕ, suc, ◌+◌, ◌-◌, Bool, true, false, not, ◌&&◌, ◌||◌, List, [], ◌∷◌, ◌++◌, Option, none, some,
  ltb, leb, ◌==◌, if◌then◌else◌, length, get_elem?,
}
use dae_rs.Text.{
  Text, text, text_eq, is_empty, trim, to_ascii_lower, to_ascii_lowercase, starts_with, split,
}
use dae_rs.Text.Equality.{any}
use dae_rs.Text.Utf8.{encode_char, as_bytes}
use dae_rs.Text.Address.{parse_ipv4, parse_ipv6}
use dae_rs.Ruleset.IpSet.{IpNet, host4, host6}
use dae_rs.Ruleset.Reference.{
  DomainPatternType, suffix, keyword, full, regex, domain, DomainPattern,
}
pub mod Slices
pub mod Ascii
pub mod RoundTrip
pub mod Panics
pub mod WideCharacters

pub data ListError : Type 0 where
  invalid_ip invalid_domain unrecognized_rule : ℕ → Text → ListError

pub data Outcome {ℓ} (A : Type ℓ) : Type ℓ where
  ok : A → Outcome A
  err : ListError → Outcome A
  panicked : Outcome A

infixl 5 ◌>>=◌
abbrev pub ◌>>=◌ {ℓ κ} : {A : Type ℓ} {B : Type κ} → Outcome A → (A → Outcome B) → Outcome B
ok a >>= f = f a
err e >>= f = err e
panicked >>= f = panicked

-- The keywords of the two lists.
abbrev pub non_ip_rule_prefixes : List Text
non_ip_rule_prefixes =
    text "domain"
    ∷ text "domain-suffix"
    ∷ text "domain-keyword"
    ∷ text "domain-regex"
    ∷ text "geoip"
    ∷ text "match"
    ∷ text "final"
    ∷ text "rule-set"
    ∷ text "process-name"
    ∷ text "process-path"
    ∷ text "user-agent"
    ∷ text "src-ip"
    ∷ text "src-port"
    ∷ text "dst-port"
    ∷ text "protocol"
    ∷ text "network"
    ∷ text "url-regex"
    ∷ text "ip-asn"
    ∷ []

abbrev pub non_domain_rule_prefixes : List Text
non_domain_rule_prefixes =
    text "ip-cidr"
    ∷ text "ip-cidr6"
    ∷ text "ip-asn"
    ∷ text "geoip"
    ∷ text "match"
    ∷ text "final"
    ∷ text "rule-set"
    ∷ text "process-name"
    ∷ text "process-path"
    ∷ text "user-agent"
    ∷ text "src-ip"
    ∷ text "src-port"
    ∷ text "dst-port"
    ∷ text "protocol"
    ∷ text "network"
    ∷ text "url-regex"
    ∷ []

abbrev pub cons_some : ℕ → Option Text → Option Text
cons_some c none = none
cons_some c (some t) = some (c ∷ t)

-- The characters of the first `n` bytes, where a character ends there.
unfoldable pub slice_to : ℕ → Text → Option Text
unfolding encode_char
slice_to n [] = if n == 0 then some [] else none
slice_to n (c ∷ cs) =
    let width = length (encode_char c) in
    let rest = cons_some c (slice_to (n - width) cs) in
    if n == 0 then some [] else if ltb n width then none else rest

unfoldable pub eq_ignore_ascii_case : Text → Text → Bool
unfolding text_eq to_ascii_lowercase
eq_ignore_ascii_case s t = text_eq (to_ascii_lowercase s) (to_ascii_lowercase t)

-- `line[..n].eq_ignore_ascii_case(..)`
unfoldable pub slice_is : ℕ → Text → Text → Outcome Bool
unfolding slice_to eq_ignore_ascii_case
slice_is n line s = elim (slice_to n line) [
  | none ↦ panicked
  | some t ↦ ok (eq_ignore_ascii_case t s)
]

abbrev pub is_byte : ℕ → Option ℕ → Bool
is_byte b none = false
is_byte b (some c) = c == b

abbrev pub drop_chars : Text → Text → Text
drop_chars [] s = s
drop_chars (k ∷ ks) [] = []
drop_chars (k ∷ ks) (c ∷ cs) = drop_chars ks cs

-- The keywords are ASCII, so that their bytes are as many as their characters, and where the text before
-- the comma is the keyword, the comma is the character behind it.
unfoldable pub strip_rule_keyword : Text → Text → Outcome (Option Text)
unfolding as_bytes slice_is trim
strip_rule_keyword line kw =
    let bytes = as_bytes line in
    if ltb (length kw) (length bytes) && is_byte b',' (get_elem? bytes (length kw))
    then (slice_is (length kw) line kw >>= λ same.
        ok (if same then some (trim (drop_chars (0 ∷ kw) line)) else none))
    else ok none

unfoldable pub line_is_rule_keyword : Text → List Text → Bool
unfolding to_ascii_lowercase text_eq starts_with any
line_is_rule_keyword line keywords =
    let lower = to_ascii_lowercase line in
    any (λ kw. text_eq lower kw || starts_with lower (kw ++ b',' ∷ [])) keywords

abbrev first_piece : List Text → Text
first_piece [] = []
first_piece (p ∷ ps) = p

unfoldable pub first_arg : Text → Text
unfolding split trim
first_arg rest = trim (first_piece (split b',' rest))

-- `parse::<IpNet>` of the crate ipnet is a parameter.
module _ (parse_net : Text → Option IpNet) where
  unfoldable pub parse_ip_line : Text → Option IpNet
  unfolding parse_ipv4 parse_ipv6
  parse_ip_line line = elim (parse_net line) [
    | some net ↦ some net
    | none ↦ elim (parse_ipv4 line) [
      | some addr ↦ some (host4 addr)
      | none ↦ elim (parse_ipv6 line) [ some addr ↦ some (host6 addr) | none ↦ none ]
    ]
  ]

-- `ok_or_else` and the value that is pushed.
abbrev pub pushed {ℓ} : {A : Type ℓ} → Option A → ListError → Outcome (Option A)
pushed none e = err e
pushed (some a) e = ok (some a)

unfoldable pub rule_domain : List (Text × DomainPatternType) → Text → Outcome (Option DomainPattern)
unfolding strip_rule_keyword first_arg is_empty
rule_domain [] line = ok none
rule_domain (k ∷ ks) line =
    let later = rule_domain ks line in
    strip_rule_keyword line k.0 >>= λ found. elim found [
      | none ↦ later
      | some rest ↦
          let value = first_arg rest in
          ok (if is_empty value then none else some (record { pattern_type = k.1; value = value }))
    ]

abbrev pub rule_keywords : List (Text × DomainPatternType)
rule_keywords =
    (text "DOMAIN-SUFFIX", suffix)
    ∷ (text "DOMAIN-KEYWORD", keyword)
    ∷ (text "DOMAIN-REGEX", regex)
    ∷ (text "DOMAIN", full)
    ∷ []

unfoldable pub parse_rule_domain : Text → Outcome (Option DomainPattern)
unfolding rule_domain
parse_rule_domain line = rule_domain rule_keywords line

abbrev pub native_prefixes : List (Text × DomainPatternType)
native_prefixes =
    (text "full:", full)
    ∷ (text "domain:", domain)
    ∷ (text "suffix:", suffix)
    ∷ (text "keyword:", keyword)
    ∷ (text "regex:", regex)
    ∷ []

-- `line.len() >= p.len() && line[..p.len()].eq_ignore_ascii_case(p)`
unfoldable pub has_prefix : Text → Text → Outcome Bool
unfolding as_bytes slice_is
has_prefix line p =
    if leb (length p) (length (as_bytes line)) then slice_is (length p) line p else ok false

unfoldable pub native_domain :
    List (Text × DomainPatternType) → Text → Outcome (Option DomainPattern)
unfolding has_prefix trim is_empty
native_domain [] line =
    ok (if is_empty line then none else some (record { pattern_type = suffix; value = line }))
native_domain (p ∷ ps) line =
    let later = native_domain ps line in
    let value = trim (drop_chars p.0 line) in
    has_prefix line p.0 >>= λ found.
    if found
    then ok (if is_empty value then none else some (record { pattern_type = p.1; value = value }))
    else later

unfoldable pub parse_domain_line : Text → Outcome (Option DomainPattern)
unfolding native_domain
parse_domain_line line = native_domain native_prefixes line

unfoldable pub any_prefix : List (Text × DomainPatternType) → Text → Outcome Bool
unfolding has_prefix
any_prefix [] line = ok false
any_prefix (p ∷ ps) line =
    let later = any_prefix ps line in
    has_prefix line p.0 >>= λ found. if found then ok true else later

unfoldable pub is_native_domain_prefix : Text → Outcome Bool
unfolding any_prefix
is_native_domain_prefix line = any_prefix native_prefixes line

-- `str::lines`
abbrev pub strip_cr : Text → Text
strip_cr [] = []
strip_cr (c ∷ []) = if c == 13 then [] else c ∷ []
strip_cr (c ∷ d ∷ cs) = c ∷ strip_cr (d ∷ cs)

unfoldable pub lines_from : Text → Text → List Text
unfolding is_empty
lines_from current [] = if is_empty current then [] else current ∷ []
lines_from current (c ∷ cs) =
    let next = lines_from [] cs in
    let same = lines_from (current ++ c ∷ []) cs in
    if c == 10 then strip_cr current ∷ next else same

abbrev pub is_comment : Text → Bool
is_comment [] = false
is_comment (c ∷ cs) = c == b'#'

unfoldable pub is_skipped : Text → Bool
unfolding is_empty
is_skipped line = is_empty line || is_comment line

abbrev pub has_comma : Text → Bool
has_comma line = any (λ c. c == b',') line

-- A round of the two loops on a trimmed line; `none` is a line that is skipped.
unfoldable pub domain_line : ℕ → Text → Outcome (Option DomainPattern)
unfolding is_skipped parse_rule_domain line_is_rule_keyword parse_domain_line
    is_native_domain_prefix
domain_line number line =
    if is_skipped line
    then ok none
    else parse_rule_domain line >>= λ rule. elim rule [
      | some pat ↦ ok (some pat)
      | none ↦
          if line_is_rule_keyword line non_domain_rule_prefixes
          then ok none
          else parse_domain_line line >>= λ native. elim native [
            | some pat ↦ ok (some pat)
            | none ↦ is_native_domain_prefix line >>= λ prefixed.
                if prefixed
                then err (invalid_domain number line)
                else err (unrecognized_rule number line)
          ]
    ]

-- `if let Some(..)` with a `continue`, and what follows it.
abbrev pub found_or {ℓ κ} :
    {A : Type ℓ} {B : Type κ} → Option A → (A → Outcome B) → Outcome B → Outcome B
found_or none f o = o
found_or (some a) f o = f a

unfoldable pub ip_line : (Text → Option IpNet) → ℕ → Text → Outcome (Option IpNet)
unfolding is_skipped strip_rule_keyword first_arg parse_ip_line line_is_rule_keyword any
ip_line parse_net number line =
    let plain =
      if line_is_rule_keyword line non_ip_rule_prefixes
      then ok none
      else found_or (parse_ip_line parse_net line) (λ net. ok (some net))
          (if has_comma line
            then err (unrecognized_rule number line)
            else err (invalid_ip number line)) in
    let cidr =
      λ (rest : Text). pushed (parse_ip_line parse_net (first_arg rest)) (invalid_ip number line) in
    if is_skipped line
    then ok none
    else (strip_rule_keyword line (text "IP-CIDR") >>= λ found.
        found_or found cidr
          (strip_rule_keyword line (text "IP-CIDR6") >>= λ found6. found_or found6 cidr plain))

abbrev pub push_option {ℓ} : {A : Type ℓ} → Option A → List A → List A
push_option none l = l
push_option (some a) l = a ∷ l

-- The loop over the lines, which are numbered from 1.
unfoldable pub parse_lines {ℓ} :
    {A : Type ℓ} → (ℕ → Text → Outcome (Option A)) → ℕ → List Text → Outcome (List A)
unfolding trim
parse_lines line_of idx [] = ok []
parse_lines line_of idx (raw ∷ raws) =
    let later = parse_lines line_of (suc idx) raws in
    line_of (suc idx) (trim raw) >>= λ found. later >>= λ more. ok (push_option found more)

unfoldable pub parse_domain_list : Text → Outcome (List DomainPattern)
unfolding lines_from parse_lines domain_line
parse_domain_list input = parse_lines domain_line 0 (lines_from [] input)

unfoldable pub parse_ip_list : (Text → Option IpNet) → Text → Outcome (List IpNet)
unfolding lines_from parse_lines ip_line
parse_ip_list parse_net input = parse_lines (ip_line parse_net) 0 (lines_from [] input)
