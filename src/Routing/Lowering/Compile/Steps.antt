-- ===== src/Routing/Lowering/Compile/Steps.antt =====
-- The steps of a compilation that succeeds, and the tries that they keep.
use dae_rs.Prelude.{
  ℕ, ◌≡◌, ◌≤◌, refl, sym, subst, ◌∙◌, Bool, true, false, List, [], ◌∷◌, Option, map, if◌then◌else◌,
  length, arith,
}
use dae_rs.Text.{Text, is_empty}
use dae_rs.Ruleset.IpSet.{IpNet, IpAddr}
use dae_rs.Ruleset.DomainSet.{CompiledDomainSet}
use dae_rs.Routing.MatchSet.{MatchSet}
use dae_rs.Routing.Matcher.{CompiledRouting}
use dae_rs.Routing.Expression.{Function, Outbound, NormalizedRule, Parsed, ok, err, ◌>>=◌}
use dae_rs.Routing.Lowering.{
  TextMap, get, build_outbound_id_map, resolve_outbound_id, compute_override_outbound,
  group_params_by_key,
}
use dae_rs.Routing.Lowering.Tries.{
  Tries, find_or_create_lpm_trie, hash_cidrs, find_hash, find_or_create, push_trie,
}
use dae_rs.Routing.Lowering.Tries.Laws.{Extends-refl, Extends-trans, AllIndexed}
use dae_rs.Routing.Lowering.Entries.{Lowering, Lowered, build_match_set_for_function}
use dae_rs.Routing.Lowering.Entries.Indices.{
  AllTries, AllTries-Extends, AllTries-append, GoodStep, Good, Good-ok, Good-bind, Good-same,
  build_match_set_for_function-Good,
}
use dae_rs.Dns.DomainRoutes.{NormalizedProgram}
use dae_rs.Routing.Lowering.Domains.{collect_domain_sets}
use dae_rs.Routing.Lowering.Compile.{
  max_match_set_len, max_lpm_num, or_empty, behind, lower_keys, lower_functions, lower_rule,
  lower_rules, proxy_cidr, proxy_entries, no_tries, proxy_trie, fallback_result, checked, assemble,
  RuleSets, ip_sets, pattern_sets, compile_program,
}

Good-then :
    (s : Lowering) (p : Lowered) (f : Lowering × List MatchSet → Lowered)
    → Good s p
    → ((r : Lowering × List MatchSet) → GoodStep s r → Good s (f r))
    → Good s (p >>= f)
Good-then s (err e) f h k = tt
Good-then s (ok r) f h k = k r h

Good-behind :
    (s : Lowering) (r : Lowering × List MatchSet) (q : Lowered)
    → GoodStep s r
    → Good r.0 q
    → Good s (q >>= behind r.1)
Good-behind s r (err e) h k = tt
Good-behind s r (ok t) h k = (
  k.0,
  Extends-trans s.tries r.0.tries t.0.tries h.1 k.1,
  AllTries-append t.0.tries r.1 t.1 (AllTries-Extends r.0.tries t.0.tries r.1 k.1 h.2) k.2,
)

module _ (parse_net : Text → Option IpNet) (sets : Option (Text → Option (List IpNet)))
    (outbound_id_map : TextMap ℕ) where
  lower_keys-Good :
      (func : Function) (m : TextMap (List Text)) (last : Bool) (outbound : Outbound)
      (keys : List Text) (s : Lowering)
      → AllIndexed s.tries
      → Good s (lower_keys parse_net sets outbound_id_map func m last outbound keys s)
  unfolding lower_keys
  lower_keys-Good func m last outbound [] s w = Good-same s [] w tt
  lower_keys-Good func m last outbound (key ∷ keys) s w =
      let ov = compute_override_outbound (is_empty keys) last outbound in
      Good-bind s (resolve_outbound_id ov outbound_id_map) _ λ id.
        Good-then s
          (build_match_set_for_function parse_net sets func (or_empty (get key m)) id ov s) _
          (build_match_set_for_function-Good parse_net sets func (or_empty (get key m)) id ov s w)
          λ r h. Good-behind s r _ h (lower_keys-Good func m last outbound keys r.0 h.0)

  lower_functions-Good :
      (outbound : Outbound) (funcs : List Function) (s : Lowering)
      → AllIndexed s.tries
      → Good s (lower_functions parse_net sets outbound_id_map outbound funcs s)
  unfolding lower_functions
  lower_functions-Good outbound [] s w = Good-same s [] w tt
  lower_functions-Good outbound (func ∷ funcs) s w =
      let g = group_params_by_key func.raw_params in
      Good-then s _ _
        (lower_keys-Good func g.key_to_values (is_empty funcs) outbound g.key_order s w)
        λ r h. Good-behind s r _ h (lower_functions-Good outbound funcs r.0 h.0)

  Good-if :
      (s : Lowering) (b : Bool) (p q : Lowered) → Good s p → Good s q → Good s (if b then p else q)
  Good-if s true p q h k = h
  Good-if s false p q h k = k

  lower_rule-Good :
      (rule : NormalizedRule) (s : Lowering)
      → AllIndexed s.tries
      → Good s (lower_rule parse_net sets outbound_id_map rule s)
  unfolding lower_rule
  lower_rule-Good rule s w = Good-bind s (resolve_outbound_id rule.outbound outbound_id_map) _ λ id.
      Good-if s (is_empty rule.and_functions) _ _ (w, Extends-refl s.tries, (tt, tt))
        (lower_functions-Good rule.outbound rule.and_functions s w)

  pub lower_rules-Good :
      (rules : List NormalizedRule) (s : Lowering)
      → AllIndexed s.tries
      → Good s (lower_rules parse_net sets outbound_id_map rules s)
  unfolding lower_rules
  lower_rules-Good [] s w = Good-same s [] w tt
  lower_rules-Good (rule ∷ rules) s w =
      Good-then s _ _ (lower_rule-Good rule s w)
        λ r h. Good-behind s r _ h (lower_rules-Good rules r.0 h.0)

-- A chain that ends in a result.
pub bind_ok :
    {A B : Type 0} (p : Parsed A) (f : A → Parsed B) (b : B)
    → p >>= f ≡ ok b
    → (a : A) × (p ≡ ok a) × (f a ≡ ok b)
bind_ok (ok a) f b e = (a, refl, e)
bind_ok {B = B} (err x) f b e = absurd (err≢ok e)
  where
    err≢ok : ◌≡◌ {A = Parsed B} (err x) (ok b) → ⊥
    err≢ok e = cc

pub ok_injective : {A : Type 0} (a b : A) → ◌≡◌ {A = Parsed A} (ok a) (ok b) → a ≡ b
ok_injective a b e = cc

pub checked_ok :
    (c d : CompiledRouting)
    → checked c ≡ ok d
    → (c ≡ d)
      × (length c.match_sets ≤ max_match_set_len)
      × (length c.lpm_tries ≤ max_lpm_num)
      × (length c.domain_sets ≤ max_match_set_len)
unfolding checked
checked_ok c d e = (ground (arith, ok_injective c d), ground arith, ground arith, ground arith)

-- The tries of the proxy servers are the first ones.
abbrev pub GoodFront : Tries × List MatchSet → Type 0
GoodFront r = AllIndexed r.0 × AllTries r.0 r.1

-- The first list is placed at the index 0.
abbrev pub first_trie : List IpNet → Tries
first_trie cidrs = record { lpm_tries = cidrs ∷ []; lpm_dedup = (hash_cidrs cidrs, 0) ∷ [] }

pub proxy_trie-cons :
    (c : IpNet) (cs : List IpNet) → proxy_trie (c ∷ cs) ≡ ok (first_trie (c ∷ cs), proxy_entries 0)
unfolding proxy_trie is_empty find_or_create_lpm_trie find_hash find_or_create push_trie
proxy_trie-cons c cs = refl

pub proxy_trie-nil : proxy_trie [] ≡ ok (no_tries, [])
unfolding proxy_trie is_empty
proxy_trie-nil = refl

pub proxy_trie-GoodFront :
    (cidrs : List IpNet) (r : Tries × List MatchSet) → proxy_trie cidrs ≡ ok r → GoodFront r
proxy_trie-GoodFront [] r e =
    subst GoodFront (ok_injective (no_tries, []) r (sym proxy_trie-nil ∙ e)) (tt, tt)
proxy_trie-GoodFront (c ∷ cs) r e =
    subst GoodFront (ok_injective _ r (sym (proxy_trie-cons c cs) ∙ e))
      ((omega arith, tt), ((0, refl, c ∷ cs, refl), (tt, tt)))

module _ (parse_net : Text → Option IpNet) (cache : Option RuleSets) (nodes groups : List Text)
    (proxy_server_ips : List IpAddr) where
  -- The results of the steps of a compilation that succeeds.
  pub record Steps (program : NormalizedProgram) (c : CompiledRouting) : Type 0 where
    pub proxy : Tries × List MatchSet
    pub domain_sets : List CompiledDomainSet
    pub lowered : Lowering × List MatchSet
    pub proxy_eq : proxy_trie (map proxy_cidr proxy_server_ips) ≡ ok proxy
    pub domain_sets_eq : collect_domain_sets (pattern_sets cache) program.rules ≡ ok domain_sets
    pub lowered_eq :
        lower_rules parse_net
          (ip_sets cache)
          (build_outbound_id_map nodes groups)
          program.rules
          (record { tries = proxy.0; rule_domain_idx = 0 })
        ≡ ok lowered
    pub checked_eq :
        checked (
          assemble
            (fallback_result program.fallback (build_outbound_id_map nodes groups))
            domain_sets
            proxy.1
            lowered)
        ≡ ok c

  pub compile_program-Steps :
      (program : NormalizedProgram) (c : CompiledRouting)
      → compile_program parse_net cache nodes groups proxy_server_ips program ≡ ok c
      → Steps program c
  unfolding compile_program
  compile_program-Steps program c e =
      let proxy = bind_ok (proxy_trie (map proxy_cidr proxy_server_ips)) _ c e in
      let sets = bind_ok (collect_domain_sets (pattern_sets cache) program.rules) _ c proxy.2 in
      let lowered =
        bind_ok
          (lower_rules parse_net (ip_sets cache) (build_outbound_id_map nodes groups) program.rules
            (record { tries = proxy.0.0; rule_domain_idx = 0 }))
          _ c sets.2 in
      record {
        proxy = proxy.0;
        domain_sets = sets.0;
        lowered = lowered.0;
        proxy_eq = proxy.1;
        domain_sets_eq = sets.1;
        lowered_eq = lowered.1;
        checked_eq = lowered.2;
      }

  -- The tries of the proxy servers are kept, and the entries of the rules name tries.
  pub lowered-GoodStep :
      (program : NormalizedProgram) (c : CompiledRouting) (st : Steps program c)
      → GoodStep (record { tries = st.proxy.0; rule_domain_idx = 0 }) st.lowered
  lowered-GoodStep program c st =
      let start : Lowering = record { tries = st.proxy.0; rule_domain_idx = 0 } in
      Good-ok start _ st.lowered
        (lower_rules-Good parse_net (ip_sets cache) (build_outbound_id_map nodes groups)
          program.rules start (proxy_trie-GoodFront _ st.proxy st.proxy_eq).0)
        st.lowered_eq
