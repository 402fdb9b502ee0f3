-- ===== src/Routing/Lowering/Compile/IpRules.antt =====
-- Rules of one function on the destination address each: how they are lowered.
use dae_rs.Prelude.{
  ℕ, suc, ◌+◌, ◌≡◌, ◌≤◌, refl, ap, Bool, true, false, not, List, [], ◌∷◌, Option, some, map,
  if◌then◌else◌, ◌==◌, length, get_elem?, arith,
}
use dae_rs.Text.{Text, is_empty}
use dae_rs.Ruleset.IpSet.{IpNet, IpAddr}
use dae_rs.Ruleset.IpSet.Laws.{AllNets, scan}
use dae_rs.Routing.MatchSet.{MatchSet, with_index, is_linked}
use dae_rs.Routing.MatchSet.MatchType
use dae_rs.Routing.MatchSet.Outbound as OutboundId
use dae_rs.Routing.Matcher.{RoutingResult}
use dae_rs.Routing.Expression.{Function, Outbound, NormalizedRule, ok}
use dae_rs.Routing.Lowering.{
  TextMap, resolve_outbound_id, compute_override_outbound, group_params_by_key, parse_cidr_values,
}
use dae_rs.Routing.Lowering.Tries.{Tries, find_or_create_lpm_trie}
use dae_rs.Routing.Lowering.Tries.Laws.{
  AllIndexed, Extends, Extends-refl, Extends-trans, get_elem?-Extends,
}
use dae_rs.Routing.Lowering.Tries.Masked.{
  AllMasked, AllTriesMasked, find_or_create_lpm_trie-AllMasked,
}
use dae_rs.Routing.Lowering.Entries.{
  dip_fn, kind_of, Lowering, entry_of, ip_entries, build_match_set_for_function, build_kind,
}
use dae_rs.Dns.DomainRoutes.{NormalizedProgram}
use dae_rs.Routing.Lowering.Compile.{lower_keys, lower_functions, lower_rule, lower_rules}

-- A rule with one function, the networks of its parameters and the identifier of its outbound.
pub record IpRule : Type 0 where
  pub func : Function
  pub outbound : Outbound
  pub key : Text
  pub nets : List IpNet
  pub outbound_id : ℕ

abbrev pub rule_of : IpRule → NormalizedRule
rule_of r = record { and_functions = r.func ∷ []; outbound = r.outbound }

-- A program of such rules.
abbrev pub program_of : List IpRule → Outbound → NormalizedProgram
program_of rs fallback = record { rules = map rule_of rs; fallback = fallback }

-- The reference: the first rule whose networks have the address, or with `!` do not have it.
abbrev pub applies : IpRule → IpAddr → Bool
applies r ip = if r.func.negated then not (scan r.nets ip) else scan r.nets ip

abbrev pub first_rule : RoutingResult → List IpRule → IpAddr → RoutingResult
first_rule fallback [] ip = fallback
first_rule fallback (r ∷ rs) ip =
    if applies r ip
    then record { outbound = r.outbound_id; mark = r.outbound.mark; must = r.outbound.must }
    else first_rule fallback rs ip

abbrev pub entry : IpRule → ℕ → MatchSet
entry r i =
    entry_of
      (record { negated = r.func.negated; outbound_id = r.outbound_id; ov_outbound = r.outbound })
      MatchType.ip_set (with_index i)

module _ (parse_net : Text → Option IpNet) (sets : Option (Text → Option (List IpNet)))
    (outbound_id_map : TextMap ℕ) where
  -- The function is `dip`, `ip` or `target_ip`, with one key group, its parameters parse, and the outbound is
  -- none of LOGICAL_OR, LOGICAL_AND and MUST_RULES.
  abbrev pub IsIpRule : IpRule → Type 0
  IsIpRule r =
      (kind_of r.func.name ≡ some dip_fn)
      × ((group_params_by_key r.func.raw_params).key_order ≡ r.key ∷ [])
      × (parse_cidr_values parse_net sets r.func.raw_params ≡ ok r.nets)
      × (resolve_outbound_id r.outbound outbound_id_map ≡ ok r.outbound_id)
      × (is_linked r.outbound_id ≡ false)
      × ((r.outbound_id == OutboundId.must_rules) ≡ false)
      × AllNets r.nets
      × AllMasked r.nets

  abbrev pub AllIpRules : List IpRule → Type 0
  AllIpRules [] = Unit {0}
  AllIpRules (r ∷ rs) = IsIpRule r × AllIpRules rs

  -- What a rule's lowering comes to, where its networks are placed.
  module _ (r : IpRule) (s : Lowering) (q : Tries × ℕ) (h : IsIpRule r)
      (placed : find_or_create_lpm_trie r.nets s.tries ≡ ok q) where
    abbrev one_entry : Lowering × List MatchSet
    one_entry = (record s { tries = q.0 }, entry r q.1 ∷ [])

    build-one_entry :
        (values : List Text)
        → build_match_set_for_function parse_net sets r.func values r.outbound_id r.outbound s
          ≡ ok one_entry
    unfolding build_match_set_for_function build_kind ip_entries
    build-one_entry values = rw (h.0, build_match_set_for_function, h.2, placed)

    lower_keys-one_entry :
        (m : TextMap (List Text))
        → lower_keys parse_net sets outbound_id_map r.func m true r.outbound (r.key ∷ []) s
          ≡ ok one_entry
    unfolding lower_keys compute_override_outbound is_empty
    lower_keys-one_entry m = rw (h.3, lower_keys, build-one_entry _)

    lower_rule-one_entry : lower_rule parse_net sets outbound_id_map (rule_of r) s ≡ ok one_entry
    unfolding lower_rule lower_functions is_empty
    lower_rule-one_entry = rw (h.3, lower_rule, lower_functions, h.1, lower_keys-one_entry _)

-- The entries of the rules, each with the index of the trie of its networks.
abbrev pub EntriesOf : Tries → List IpRule → List MatchSet → Type 0
EntriesOf t [] [] = Unit {0}
EntriesOf t [] (e ∷ es) = ⊥
EntriesOf t (r ∷ rs) [] = ⊥
EntriesOf t (r ∷ rs) (e ∷ es) =
    ((i : ℕ) × (e ≡ entry r i) × (get_elem? t.lpm_tries i ≡ some r.nets)) × EntriesOf t rs es

pub EntriesOf-length :
    (t : Tries) (rs : List IpRule) (es : List MatchSet) → EntriesOf t rs es → length es ≡ length rs
EntriesOf-length t [] [] h = refl
EntriesOf-length t [] (e ∷ es) h = absurd h
EntriesOf-length t (r ∷ rs) [] h = absurd h
EntriesOf-length t (r ∷ rs) (e ∷ es) h = ap suc (EntriesOf-length t rs es h.1)

-- What the matcher needs of a rule.
abbrev pub AllSingle : List IpRule → Type 0
AllSingle [] = Unit {0}
AllSingle (r ∷ rs) =
    ((is_linked r.outbound_id ≡ false)
      × ((r.outbound_id == OutboundId.must_rules) ≡ false)
      × AllNets r.nets)
    × AllSingle rs

-- What the lowering of the rules promises.
abbrev pub AllLowered : List IpRule → Lowering → Lowering × List MatchSet → Type 0
AllLowered rs s out =
    Extends s.tries out.0.tries
    × EntriesOf out.0.tries rs out.1
    × (length out.0.tries.lpm_tries ≤ length s.tries.lpm_tries + length rs)

module _ (parse_net : Text → Option IpNet) (sets : Option (Text → Option (List IpNet)))
    (outbound_id_map : TextMap ℕ) where
  pub lower_rules-AllLowered :
      (rs : List IpRule) (s : Lowering)
      → AllIpRules parse_net sets outbound_id_map rs
      → AllIndexed s.tries
      → AllTriesMasked s.tries.lpm_tries
      → (out : Lowering × List MatchSet) × (lower_rules parse_net sets outbound_id_map
            (map rule_of rs)
            s
          ≡ ok out)
        × AllLowered rs s out
  unfolding lower_rules
  lower_rules-AllLowered [] s h w m = ((s, []), refl, (Extends-refl s.tries, tt, omega arith))
  lower_rules-AllLowered (r ∷ rs) s h w m =
      let put = find_or_create_lpm_trie-AllMasked r.nets s.tries w m h.0.7 in
      let s1 : Lowering = record s { tries = put.0.0 } in
      let first = lower_rule-one_entry parse_net sets outbound_id_map r s put.0 h.0 put.1 in
      let later = lower_rules-AllLowered rs s1 h.1 put.2.0 put.3 in
      (
        (later.0.0, entry r put.0.1 ∷ later.0.1),
        rw (first, lower_rules, later.1) refl,
        (
          Extends-trans s.tries put.0.0 later.0.0.tries put.2.1 later.2.0,
          (
            (
              put.0.1,
              refl,
              get_elem?-Extends put.0.0 later.0.0.tries put.0.1 r.nets later.2.0 put.4,
            ),
            later.2.1,
          ),
          omega (arith, later.2.2, put.2.3),
        ),
      )
