-- ===== src/Tests.antt =====
-- Instances of the theorems at concrete inputs: control/src/ruleset. The children take the other parts.
mod Routing
mod Lowering
mod Lists
mod Schedule
mod UdpTracker
mod Janitor
mod Group
mod Dns
mod Expression
mod Forwarder
use mathlib.Core.List.Perm
use mathlib.Core.List.{Perm}
use mathlib.Core.Option.{get_or}
use dae_rs.Prelude.{
  ℕ, ◌+◌, ◌<◌, ◌≤◌, ◌≡◌, refl, inl, inr, ◌⊎◌, Bool, true, false, ◌||◌, List, [], ◌∷◌, ◌++◌, Option,
  none, some, ◌==◌, length, drop, arith,
}
use dae_rs.Text.{Text, text, text_eq, is_empty}
use dae_rs.Text.Dots.{after_dots}
use dae_rs.Text.Equality.{any, mem_text}
use dae_rs.Ruleset.Ranges.{Range, merge_ranges, contains_in_ranges}
use dae_rs.Ruleset.Ranges.Merge.{in_any, ApartFrom, merge_ranges_sound}
use dae_rs.Ruleset.Ranges.Search.{contains_in_ranges-in_any}
use dae_rs.Ruleset.IpSet
use dae_rs.Ruleset.IpSet.{Net, IpNet, v4, v6, addr4}
use dae_rs.Ruleset.IpSet.Laws.{scan, contains-compile}
use dae_rs.Ruleset.SuffixTrie
use dae_rs.Ruleset.SuffixTrie.Suffixes.{insert_all, contains-insert_all}
use dae_rs.Ruleset.DomainSet
use dae_rs.Ruleset.DomainSet.Laws.{matches-scan}
use dae_rs.Text.{trim}
use dae_rs.Ruleset.QnameValue.{match_qname_value, match_qname_value-domain_pattern_to_string}
use dae_rs.Ruleset.Reference.{
  domain, match_domain_pattern, domain_pattern_to_string, DomainPattern, suffix, full, keyword,
  regex, normalize_qname, match_domain_patterns,
}

-- A stand-in for the crate regex: a pattern is a literal text.
abbrev literal : Text → Option (Text → Bool)
literal p = some (text_eq p)

abbrev patterns : List DomainPattern
patterns =
    record { pattern_type = suffix; value = text ".Example.com" }
    ∷ record { pattern_type = keyword; value = text "track" }
    ∷ record { pattern_type = full; value = text "a.org." }
    ∷ record { pattern_type = regex; value = text "b.org" }
    ∷ []

matches-scan_example :
    DomainSet.matches literal (DomainSet.compile patterns) (text "www.example.com.")
    ≡ match_domain_patterns literal (text "www.example.com.") patterns
unfolding normalize_qname is_empty
matches-scan_example =
    matches-scan literal patterns (text "www.example.com.") refl (tt, (tt, (tt, (refl, tt))))

abbrev nets : List IpNet
nets =
    v4 (record { addr = 167772161; network = 167772160; prefix_len = 8 })
    ∷ v6 (record { addr = 1; network = 0; prefix_len = 127 })
    ∷ v4 (record { addr = 3232235776; network = 3232235776; prefix_len = 24 })
    ∷ []

abbrev all_v4 : IpNet
all_v4 = v4 (record { addr = 0; network = 0; prefix_len = 0 })

contains-compile_example :
    IpSet.contains (IpSet.compile nets) (addr4 167772161) ≡ scan nets (addr4 167772161)
contains-compile_example = contains-compile nets (addr4 167772161) (
  (omega arith, refl, omega arith, omega arith),
  (
    (omega arith, refl, omega arith, omega arith),
    ((omega arith, refl, omega arith, omega arith), tt),
  ),
)

contains-insert_all_example :
    SuffixTrie.contains
      (insert_all SuffixTrie.new (text "example.com" ∷ text "org" ∷ []))
      (text "a.org")
    ≡ any
        (λ r. mem_text r (text "example.com" ∷ text "org" ∷ []))
        (text "a.org" ∷ after_dots (text "a.org"))
contains-insert_all_example =
    contains-insert_all (text "example.com" ∷ text "org" ∷ []) (text "a.org")

-- A network of prefix length 0 is compiled to its first address.
zero_prefix_test :
    (IpSet.contains (IpSet.compile (all_v4 ∷ [])) (addr4 0) ≡ true)
    × (IpSet.contains (IpSet.compile (all_v4 ∷ [])) (addr4 1) ≡ false)
unfolding IpSet.contains IpSet.compile
zero_prefix_test = (refl, refl)
