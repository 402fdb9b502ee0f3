-- ===== src/Routing/Lowering.antt =====
-- control/src/routing/matcher.rs: what `compile_rules` uses of the lowering of rules to entries: the
-- identifiers of outbounds, the parameters grouped by key, and the lists of addresses.
use dae_rs.Prelude.{
  ℕ, ◌+◌, ◌*◌, Bool, true, false, not, ◌&&◌, ◌||◌, List, [], ◌∷◌, ◌++◌, Option, none, some, map,
  if◌then◌else◌, ◌==◌, length,
}
use dae_rs.Text.{Text, text, text_eq, is_empty, trim, split_once, split}
use dae_rs.Text.Equality.{any}
use dae_rs.Text.Numbers.{from_str_radix}
use dae_rs.Text.Address.{parse_ipv4, parse_ipv6}
use dae_rs.Ruleset.IpSet.{IpNet, host4, host6, IpAddr, addr4, addr6}
use dae_rs.Ruleset.Reference.{RuleSetRef, set_ref, plain, parse_ref}
use dae_rs.Routing.MatchSet.{MatchSet, zeroed}
use dae_rs.Routing.MatchSet.MatchType
use dae_rs.Routing.MatchSet.Outbound as OutboundId
use dae_rs.Routing.Expression.{
  Outbound, Parsed, ok, err, ◌>>=◌, unknown_outbound, rule_set_missing, invalid_cidr, invalid_mac,
}
pub mod Tries
pub mod Entries
pub mod Domains
pub mod Compile

-- A `HashMap` of texts: the entry written last stands first.
abbrev pub TextMap {ℓ} : Type ℓ → Type ℓ
TextMap A = List (Text × A)

unfoldable pub get {ℓ} : {A : Type ℓ} → Text → TextMap A → Option A
unfolding text_eq
get k [] = none
get k (e ∷ es) = if text_eq k e.0 then some e.1 else get k es

abbrev pub ok_or {ℓ} : {A : Type ℓ} → Option A → Parsed A → Parsed A
ok_or none e = e
ok_or (some a) e = ok a

-- `nodes` and `groups` are the names of the configured nodes and groups.
abbrev insert_names : List Text → TextMap ℕ → TextMap ℕ
insert_names [] m = m
insert_names (n ∷ ns) m = insert_names ns ((n, OutboundId.control_plane_routing) ∷ m)

unfoldable pub build_outbound_id_map : List Text → List Text → TextMap ℕ
build_outbound_id_map nodes groups = insert_names groups (
    insert_names nodes (
      (text "control_plane_routing", OutboundId.control_plane_routing)
      ∷ (text "must_direct", OutboundId.must_rules)
      ∷ (text "must", OutboundId.must_rules)
      ∷ (text "block", OutboundId.block)
      ∷ (text "direct", OutboundId.direct)
      ∷ []))

unfoldable pub resolve_outbound_id : Outbound → TextMap ℕ → Parsed ℕ
unfolding text_eq get
resolve_outbound_id o outbound_id_map =
    if text_eq o.name (text "direct")
    then ok OutboundId.direct
    else if text_eq o.name (text "block")
    then ok OutboundId.block
    else if text_eq o.name (text "LOGICAL_OR")
    then ok OutboundId.logical_or
    else if text_eq o.name (text "LOGICAL_AND")
    then ok OutboundId.logical_and
    else if text_eq o.name (text "must") || text_eq o.name (text "must_direct")
    then ok OutboundId.must_rules
    else if text_eq o.name (text "control_plane_routing")
    then ok OutboundId.control_plane_routing
    else ok_or (get o.name outbound_id_map) (err unknown_outbound)

unfoldable pub compute_override_outbound : Bool → Bool → Outbound → Outbound
compute_override_outbound is_last_in_function is_last_function rule_outbound =
    if not is_last_in_function
    then record rule_outbound { name = text "LOGICAL_OR" }
    else if not is_last_function
    then record rule_outbound { name = text "LOGICAL_AND" }
    else rule_outbound

unfoldable pub build_fallback_matchset : ℕ → Outbound → MatchSet
build_fallback_matchset outbound_id rule_outbound = record {
  value = zeroed;
  negated = false;
  type = MatchType.fallback;
  outbound = outbound_id;
  must = rule_outbound.must;
  mark = rule_outbound.mark;
}

-- `entry(key).or_default().push(val)`
unfoldable pub push_value : Text → Text → TextMap (List Text) → TextMap (List Text)
unfolding text_eq
push_value key val [] = (key, val ∷ []) ∷ []
push_value key val (e ∷ es) =
    let rest = push_value key val es in
    if text_eq key e.0 then (e.0, e.1 ++ val ∷ []) ∷ es else e ∷ rest

unfoldable pub key_value : Text → Text × Text
unfolding split_once trim
key_value raw = elim (split_once b':' raw) [
  | some (k, v) ↦ (trim k, trim v)
  | none ↦ ([], trim raw)
]

pub record Grouped : Type 0 where
  pub key_to_values : TextMap (List Text)
  pub key_order : List Text

abbrev is_vacant {ℓ} : {A : Type ℓ} → Option A → Bool
is_vacant none = true
is_vacant (some a) = false

unfoldable pub group_param : Text → Grouped → Grouped
unfolding key_value push_value get is_empty
group_param raw g =
    let kv = key_value raw in
    record {
      key_to_values = push_value kv.0 kv.1 g.key_to_values;
      key_order =
          if is_vacant (get kv.0 g.key_to_values) && not (is_empty kv.0)
          then g.key_order ++ kv.0 ∷ []
          else g.key_order;
    }

unfoldable pub group_params : List Text → Grouped → Grouped
unfolding group_param
group_params [] g = g
group_params (raw ∷ raws) g = group_params raws (group_param raw g)

abbrev pub has_value : Option (List Text) → Bool
has_value none = false
has_value (some values) = any (λ v. not (is_empty v)) values

unfoldable pub group_params_by_key : List Text → Grouped
unfolding group_params get is_empty any
group_params_by_key raw_params =
    let g = group_params raw_params (record { key_to_values = []; key_order = [] }) in
    if has_value (get [] g.key_to_values)
    then record g { key_order = g.key_order ++ [] ∷ [] }
    else g

-- `parse_mac_address`: six bytes in hexadecimal.
unfoldable pub mac_bytes : List Text → Option (List ℕ)
unfolding from_str_radix
mac_bytes [] = some []
mac_bytes (p ∷ ps) =
    let rest = mac_bytes ps in
    elim (from_str_radix 256 16 p) [
      | none ↦ none
      | some b ↦ elim rest [ none ↦ none | some bs ↦ some (b ∷ bs) ]
    ]

unfoldable pub parse_mac_address : Text → Option (List ℕ)
unfolding trim split mac_bytes
parse_mac_address s =
    let parts = split b':' (trim s) in if length parts == 6 then mac_bytes parts else none

-- `parse::<IpNet>` of the crate ipnet is a parameter, as is the memory cache of rule sets: `sets` is
-- absent where there is no cache, and else gives the networks of an ip_list that is loaded.
module _ (parse_net : Text → Option IpNet) (sets : Option (Text → Option (List IpNet))) where
  unfoldable pub parse_plain : Text → Parsed IpNet
  unfolding parse_ipv4 parse_ipv6
  parse_plain v = elim (parse_net v) [
    | some cidr ↦ ok cidr
    | none ↦ elim (parse_ipv4 v) [
      | some addr ↦ ok (host4 addr)
      | none ↦ elim (parse_ipv6 v) [ some addr ↦ ok (host6 addr) | none ↦ err invalid_cidr ]
    ]
  ]

  abbrev pub set_ips : Text → Option (List IpNet)
  set_ips name = elim sets [ none ↦ none | some get_set_ips ↦ get_set_ips name ]

  unfoldable pub cidrs_of_ref : RuleSetRef → Parsed (List IpNet)
  unfolding parse_plain
  cidrs_of_ref (set_ref name) = ok_or (set_ips name) (err rule_set_missing)
  cidrs_of_ref (plain v) = do cidr ← parse_plain v; ok (cidr ∷ [])

  unfoldable pub parse_cidr_values : List Text → Parsed (List IpNet)
  unfolding cidrs_of_ref parse_ref
  parse_cidr_values [] = ok []
  parse_cidr_values (v ∷ vs) =
      let rest = parse_cidr_values vs in
      do cidrs ← cidrs_of_ref (parse_ref v); more ← rest; ok (cidrs ++ more)
