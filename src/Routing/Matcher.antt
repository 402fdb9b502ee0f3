-- ===== src/Routing/Matcher.antt =====
-- control/src/routing/matcher.rs: `RoutingMatcher`. The three fields of the fallback are one result, and
-- a byte that is only compared with 0 is a Boolean.
use dae_rs.Prelude.{
  ℕ, Bool, true, false, not, ◌&&◌, ◌||◌, List, [], ◌∷◌, Option, none, some, map, leb, ◌==◌,
  if◌then◌else◌, bit_and, get_elem?,
}
use dae_rs.Text.{Text, text_eq, trim_end_by}
use dae_rs.Text.Utf8.{from_utf8}
use dae_rs.Ruleset.IpSet
use dae_rs.Ruleset.IpSet.{CompiledIpSet, IpNet, IpAddr, addr4, addr6}
use dae_rs.Ruleset.DomainSet
use dae_rs.Ruleset.DomainSet.{CompiledDomainSet}
use dae_rs.Routing.MatchSet.{MatchSet, index_of, port_start_of, port_end_of, byte_of, is_linked}
use dae_rs.Routing.MatchSet.MatchType
use dae_rs.Routing.MatchSet.Outbound
pub mod Rules
pub mod Evaluation
pub mod Kernel

pub record RoutingParams : Type 0 where
  pub src_ip : Option IpAddr
  pub dst_ip : Option IpAddr
  pub src_port : Option ℕ
  pub dst_port : Option ℕ
  pub l4proto : Option ℕ
  pub domain : Option Text
  pub process_name : Option Text
  pub dscp : Option ℕ

pub record RoutingResult : Type 0 where
  pub outbound : ℕ
  pub mark : ℕ
  pub must : Bool

pub record CompiledRouting : Type 0 where
  pub match_sets : List MatchSet
  pub lpm_tries : List (List IpNet)
  pub domain_sets : List CompiledDomainSet
  pub fallback : RoutingResult

pub record RoutingMatcher : Type 0 where
  pub match_sets : List MatchSet
  pub compiled_lpm : List CompiledIpSet
  pub compiled_domains : List CompiledDomainSet
  pub fallback : RoutingResult

unfoldable pub from_compiled : CompiledRouting → RoutingMatcher
unfolding IpSet.compile
from_compiled c = record {
  match_sets = c.match_sets;
  compiled_lpm = map IpSet.compile c.lpm_tries;
  compiled_domains = c.domain_sets;
  fallback = c.fallback;
}

-- `Option::is_some_and`.
abbrev pub is_some_and {ℓ} : {A : Type ℓ} → Option A → (A → Bool) → Bool
is_some_and none f = false
is_some_and (some a) f = f a

abbrev pub or_else {ℓ} : {A : Type ℓ} → Option A → Option A → Option A
or_else none b = b
or_else (some a) b = some a

abbrev pub is_nul : ℕ → Bool
is_nul c = c == 0

-- The name up to its trailing zeros; bytes that are no UTF-8 give the empty name.
unfoldable pub pname_str : List ℕ → Text
unfolding from_utf8 trim_end_by
pname_str bytes = elim (from_utf8 bytes) [ none ↦ [] | some t ↦ trim_end_by is_nul t ]

unfoldable pub version_bit : ℕ → IpAddr → Bool
version_bit version (addr4 ip) = not (bit_and version 0x01 == 0)
version_bit version (addr6 ip) = not (bit_and version 0x02 == 0)

-- One round of the inner loop of `match_routing`.
pub record Flags : Type 0 where
  pub good_subrule : Bool
  pub bad_rule : Bool
  pub must_flag : Bool

abbrev pub cleared : Flags
cleared = record { good_subrule = false; bad_rule = false; must_flag = false }

pub data Verdict : Type 0 where
  goes_on : Flags → Verdict
  returns : RoutingResult → Verdict

abbrev pub result_of : MatchSet → Bool → RoutingResult
result_of ms must_flag = record {
  outbound = ms.outbound;
  mark = ms.mark;
  must = must_flag || ms.must;
}

-- `break` leaves the inner loop, and the outer loop passes the entry and clears the flags.
unfoldable pub round : Flags → MatchSet → Bool → Verdict
round fl ms matched =
    if fl.good_subrule || fl.bad_rule
    then goes_on
        (if is_linked ms.outbound || ms.outbound == Outbound.logical_and then fl else cleared)
    else (let bad = if ms.negated then matched else false in
        let good = if ms.negated then not matched else matched in
        if is_linked ms.outbound
        then goes_on (record fl { good_subrule = good; bad_rule = bad })
        else if not bad && good
        then (if ms.outbound == Outbound.must_rules
            then goes_on (record { good_subrule = false; bad_rule = false; must_flag = true })
            else returns (result_of ms fl.must_flag))
        else goes_on cleared)

-- The two loops over the entries from index `i` on; `i` moves by one in each round.
module _ (eval : MatchSet → Bool) (fallback : RoutingResult) where
  unfoldable pub walk : Flags → List MatchSet → RoutingResult
  unfolding round
  walk fl [] = fallback
  walk fl (ms ∷ rest) = elim (round fl ms (eval ms)) [ goes_on fl' ↦ walk fl' rest | returns r ↦ r ]

module _ (regex_new : Text → Option (Text → Bool)) where
  unfoldable pub lpm_contains : RoutingMatcher → ℕ → IpAddr → Bool
  unfolding IpSet.contains
  lpm_contains m i ip = is_some_and (get_elem? m.compiled_lpm i) (λ s. IpSet.contains s ip)

  unfoldable pub eval_match : RoutingMatcher → MatchSet → RoutingParams → Bool
  unfolding DomainSet.matches lpm_contains index_of port_start_of port_end_of byte_of version_bit
      pname_str text_eq
  eval_match m ms p =
      let index = index_of ms.value in
      let in_range =
        λ (port : ℕ). leb (port_start_of ms.value) port && leb port (port_end_of ms.value) in
      let byte = byte_of ms.value in
      if ms.type == MatchType.domain_set
      then is_some_and p.domain (λ d.
        is_some_and (get_elem? m.compiled_domains index) (λ s. DomainSet.matches regex_new s d))
      else if ms.type == MatchType.ip_set
      then is_some_and p.dst_ip (lpm_contains m index)
      else if ms.type == MatchType.source_ip_set
      then is_some_and p.src_ip (lpm_contains m index)
      else if ms.type == MatchType.mac
      then false
      else if ms.type == MatchType.port
      then is_some_and p.dst_port in_range
      else if ms.type == MatchType.source_port
      then is_some_and p.src_port in_range
      else if ms.type == MatchType.l4_proto
      then is_some_and p.l4proto (λ l. not (bit_and l byte == 0))
      else if ms.type == MatchType.ip_version
      then is_some_and (or_else p.dst_ip p.src_ip) (version_bit byte)
      else if ms.type == MatchType.process_name
      then is_some_and p.process_name (λ n. text_eq n (pname_str ms.value))
      else if ms.type == MatchType.dscp
      then is_some_and p.dscp (λ d. d == byte)
      else ms.type == MatchType.fallback

  unfoldable pub match_routing : RoutingMatcher → RoutingParams → RoutingResult
  unfolding walk eval_match
  match_routing m p = walk (λ ms. eval_match m ms p) m.fallback cleared m.match_sets

  -- `choose_dial_target`
  unfoldable pub choose_dial_target : RoutingMatcher → RoutingParams → RoutingResult
  unfolding match_routing
  choose_dial_target routing ctx = match_routing routing ctx
