-- ===== src/Routing/Lowering/Entries.antt =====
-- control/src/routing/matcher.rs: `build_match_set_for_function`. An arm of its `match` on the function's
-- name is a `FunctionKind`.
pub mod Indices
pub mod Numbering
use dae_rs.Prelude.{
  ℕ, ◌+◌, ◌*◌, ◌%◌, ◌^◌, Bool, true, false, not, ◌||◌, List, [], ◌∷◌, ◌++◌, Option, none, some, map,
  if◌then◌else◌, bit_or,
}
use dae_rs.Text.{Text, text, text_eq, is_empty, trim, split_once, to_ascii_lowercase}
use dae_rs.Text.Numbers.{from_str_radix}
use dae_rs.Text.Utf8.{as_bytes}
use dae_rs.Ruleset.IpSet.{IpNet, host6}
use dae_rs.Routing.MatchSet.{
  MatchSet, Value, zeroed, with_index, with_port_range, with_byte, with_name,
}
use dae_rs.Routing.MatchSet.MatchType
use dae_rs.Routing.Expression.{
  Function, Outbound, Parsed, ok, err, ◌>>=◌, invalid_number, unknown_function,
}
use dae_rs.Routing.Lowering.{ok_or, parse_mac_address, parse_cidr_values}
use dae_rs.Routing.Lowering.Tries.{Tries, find_or_create_lpm_trie}

pub data FunctionKind : Type 0 where
  dip_fn sip_fn mac_fn dport_fn sport_fn l4proto_fn ipversion_fn : FunctionKind
  domain_fn process_name_fn dscp_fn qtype_fn upstream_fn : FunctionKind

unfoldable pub kind_of : Text → Option FunctionKind
unfolding text_eq
kind_of name =
    if text_eq name (text "dip") || text_eq name (text "ip") || text_eq name (text "target_ip")
    then some dip_fn
    else if text_eq name (text "sip") || text_eq name (text "source_ip")
    then some sip_fn
    else if text_eq name (text "mac")
    then some mac_fn
    else if text_eq name (text "dport") || text_eq name (text "port")
    then some dport_fn
    else if text_eq name (text "sport") || text_eq name (text "source_port")
    then some sport_fn
    else if text_eq name (text "l4proto")
    then some l4proto_fn
    else if text_eq name (text "ipversion")
    then some ipversion_fn
    else if text_eq name (text "domain") || text_eq name (text "target_domain")
    then some domain_fn
    else if text_eq name (text "process_name") || text_eq name (text "pname")
    then some process_name_fn
    else if text_eq name (text "dscp")
    then some dscp_fn
    else if text_eq name (text "qtype")
    then some qtype_fn
    else if text_eq name (text "upstream")
    then some upstream_fn
    else none

-- What the calls share: `lpm_tries`, `lpm_dedup` and `rule_domain_idx`.
pub record Lowering : Type 0 where
  pub tries : Tries
  pub rule_domain_idx : ℕ

-- `not`, the outbound's identifier, and `ov_outbound`.
pub record EntryOptions : Type 0 where
  pub negated : Bool
  pub outbound_id : ℕ
  pub ov_outbound : Outbound

abbrev pub entry_of : EntryOptions → ℕ → Value → MatchSet
entry_of o type value = record {
  value = value;
  negated = o.negated;
  type = type;
  outbound = o.outbound_id;
  must = o.ov_outbound.must;
  mark = o.ov_outbound.mark;
}

abbrev pub Lowered : Type 0
Lowered = Parsed (Lowering × List MatchSet)

unfoldable pub ip_entries : EntryOptions → ℕ → List IpNet → Lowering → Lowered
unfolding find_or_create_lpm_trie
ip_entries o type cidrs s = do
  r ← find_or_create_lpm_trie cidrs s.tries
  ok (record s { tries = r.0 }, entry_of o type (with_index r.1) ∷ [])

abbrev number_of_bytes : ℕ → List ℕ → ℕ
number_of_bytes acc [] = acc
number_of_bytes acc (b ∷ bs) = number_of_bytes (acc * 256 + b) bs

-- The addresses that parse, with the six bytes last.
unfoldable pub mac_nets : List Text → List IpNet
unfolding parse_mac_address
mac_nets [] = []
mac_nets (v ∷ vs) =
    let rest = mac_nets vs in
    elim (parse_mac_address v) [ none ↦ rest | some mac ↦ host6 (number_of_bytes 0 mac) ∷ rest ]

unfoldable pub mac_entries : EntryOptions → List Text → Lowering → Lowered
unfolding mac_nets is_empty ip_entries
mac_entries o raw_params s =
    let nets = mac_nets raw_params ++ (if o.negated then host6 0 ∷ [] else []) in
    if is_empty nets then ok (s, []) else ip_entries o MatchType.mac nets s

abbrev pub parse_number : ℕ → Text → Parsed ℕ
parse_number limit t = ok_or (from_str_radix limit 10 t) (err invalid_number)

unfoldable pub port_value : Text → Parsed Value
unfolding split_once trim from_str_radix
port_value val = elim (split_once b'-' val) [
  | some (start_str, end_str) ↦ (do
    start ← parse_number (2 ^ 16) (trim start_str)
    stop ← parse_number (2 ^ 16) (trim end_str)
    ok (with_port_range start stop))
  | none ↦ do port ← parse_number (2 ^ 16) val; ok (with_port_range port port)
]

-- One entry for each value.
unfoldable pub port_entries : EntryOptions → ℕ → List Text → Parsed (List MatchSet)
unfolding port_value
port_entries o type [] = ok []
port_entries o type (v ∷ vs) =
    let rest = port_entries o type vs in
    do value ← port_value v; more ← rest; ok (entry_of o type value ∷ more)

unfoldable pub dscp_entries : EntryOptions → List Text → Parsed (List MatchSet)
unfolding from_str_radix
dscp_entries o [] = ok []
dscp_entries o (v ∷ vs) =
    let rest = dscp_entries o vs in
    do
      dscp ← parse_number (2 ^ 8) v
      more ← rest
      ok (entry_of o MatchType.dscp (with_byte dscp) ∷ more)

-- `to_lowercase` gives these two names to the same texts as `to_ascii_lowercase`.
unfoldable pub proto_bits : ℕ → List Text → ℕ
unfolding text_eq to_ascii_lowercase
proto_bits proto [] = proto
proto_bits proto (v ∷ vs) =
    let name = to_ascii_lowercase v in
    proto_bits
      (if text_eq name (text "tcp")
        then bit_or proto 0x01
        else if text_eq name (text "udp")
        then bit_or proto 0x02
        else proto)
      vs

unfoldable pub version_bits : ℕ → List Text → ℕ
unfolding text_eq trim
version_bits version [] = version
version_bits version (v ∷ vs) =
    version_bits
      (if text_eq (trim v) (text "4")
        then bit_or version 0x01
        else if text_eq (trim v) (text "6")
        then bit_or version 0x02
        else version)
      vs

unfoldable pub name_entries : EntryOptions → ℕ → List Text → List MatchSet
unfolding as_bytes
name_entries o type values = map (λ v. entry_of o type (with_name (as_bytes v))) values

-- The arms that make no use of the state.
abbrev pub pure_entries : Lowering → Parsed (List MatchSet) → Lowered
pure_entries s (err e) = err e
pure_entries s (ok l) = ok (s, l)

module _ (parse_net : Text → Option IpNet) (sets : Option (Text → Option (List IpNet))) where
  unfoldable pub build_kind :
      FunctionKind → Function → List Text → EntryOptions → Lowering → Lowered
  unfolding parse_cidr_values ip_entries mac_entries port_entries dscp_entries proto_bits
      version_bits name_entries
  build_kind dip_fn func values o s = do
    cidrs ← parse_cidr_values parse_net sets func.raw_params
    ip_entries o MatchType.ip_set cidrs s
  build_kind sip_fn func values o s = do
    cidrs ← parse_cidr_values parse_net sets func.raw_params
    ip_entries o MatchType.source_ip_set cidrs s
  build_kind mac_fn func values o s = mac_entries o func.raw_params s
  build_kind dport_fn func values o s = pure_entries s (port_entries o MatchType.port values)
  build_kind sport_fn func values o s = pure_entries s (port_entries o MatchType.source_port values)
  build_kind l4proto_fn func values o s =
      ok (s, entry_of o MatchType.l4_proto (with_byte (proto_bits 0 values)) ∷ [])
  build_kind ipversion_fn func values o s =
      ok (s, entry_of o MatchType.ip_version (with_byte (version_bits 0 values)) ∷ [])
  build_kind domain_fn func values o s = ok (
    record s { rule_domain_idx = s.rule_domain_idx + 1 },
    entry_of o MatchType.domain_set (with_index s.rule_domain_idx) ∷ [],
  )
  build_kind process_name_fn func values o s = ok (s, name_entries o MatchType.process_name values)
  build_kind dscp_fn func values o s = pure_entries s (dscp_entries o values)
  build_kind qtype_fn func values o s = ok (s, entry_of o MatchType.qtype zeroed ∷ [])
  build_kind upstream_fn func values o s = ok (s, name_entries o MatchType.upstream values)

  unfoldable pub build_match_set_for_function :
      Function → List Text → ℕ → Outbound → Lowering → Lowered
  unfolding kind_of build_kind
  build_match_set_for_function func values outbound_id ov_outbound s =
      let o : EntryOptions = record {
        negated = func.negated;
        outbound_id = outbound_id;
        ov_outbound = ov_outbound;
      } in
      elim (kind_of func.name) [
        | none ↦ err unknown_function
        | some kind ↦ build_kind kind func values o s
      ]
