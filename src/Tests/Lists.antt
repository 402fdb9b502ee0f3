-- ===== src/Tests/Lists.antt =====
-- Instances of the theorems at concrete inputs: control/src/ruleset/list.rs.
use dae_rs.Prelude.{◌≡◌, refl, List, [], ◌∷◌, ◌++◌, Option, none, length, arith}
use dae_rs.Text.{Text, text, trim, is_empty, is_whitespace, trim_start_by, trim_end_by}
use dae_rs.Text.Equality.{any}
use dae_rs.Ruleset.IpSet.{IpNet}
use dae_rs.Ruleset.Reference.{DomainPattern, suffix, regex}
use dae_rs.Ruleset.Lists.{
  ok, panicked, strip_rule_keyword, lines_from, parse_domain_list, parse_ip_list,
}
use dae_rs.Ruleset.Lists.Slices.{AllAscii-is_ascii, strip_chars, strip_rule_keyword-strip_chars}
use dae_rs.Ruleset.Lists.Panics.{Settled, parse_ip_list-Settled}
use dae_rs.Ruleset.Lists.WideCharacters.{parse_domain_list-panicked}
use dae_rs.Ruleset.Lists.RoundTrip.{list_text, parse_domain_list-list_text}

abbrev no_net : Text → Option IpNet
no_net t = none

strip_rule_keyword-strip_chars_example :
    strip_rule_keyword (text "ip-cidr, 10.0.0.1") (text "IP-CIDR")
    ≡ ok (strip_chars (text "IP-CIDR") (text "ip-cidr, 10.0.0.1"))
strip_rule_keyword-strip_chars_example =
    strip_rule_keyword-strip_chars (text "ip-cidr, 10.0.0.1") (text "IP-CIDR")
      (AllAscii-is_ascii (text "IP-CIDR") refl)

-- An error at the second line.
parse_ip_list-Settled_example :
    Settled 0
      (length (lines_from [] (text "10.0.0.1\n10.0.0.300")))
      (parse_ip_list no_net (text "10.0.0.1\n10.0.0.300"))
parse_ip_list-Settled_example = parse_ip_list-Settled no_net (text "10.0.0.1\n10.0.0.300")

-- Three ideographs.
abbrev wide_line : Text
wide_line = 22495 ∷ 21517 ∷ 34920 ∷ []

parse_domain_list-panicked_example :
    parse_domain_list (wide_line ++ 10 ∷ text "example.com") ≡ panicked
unfolding any trim
parse_domain_list-panicked_example =
    parse_domain_list-panicked wide_line (text "example.com") 22495 21517 (34920 ∷ []) refl refl
      (omega arith) (omega arith) (omega arith)

abbrev patterns : List DomainPattern
patterns =
    record { pattern_type = suffix; value = text "example.com" }
    ∷ record { pattern_type = regex; value = text "^a:b$" }
    ∷ []

parse_domain_list-list_text_example : parse_domain_list (list_text patterns) ≡ ok patterns
unfolding is_empty trim_start_by trim_end_by is_whitespace any
parse_domain_list-list_text_example = parse_domain_list-list_text patterns (
  (AllAscii-is_ascii (text "example.com") refl, refl, refl, refl, refl),
  ((AllAscii-is_ascii (text "^a:b$") refl, refl, refl, refl, refl), tt),
)
