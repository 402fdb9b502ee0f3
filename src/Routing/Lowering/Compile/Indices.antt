-- ===== src/Routing/Lowering/Compile/Indices.antt =====
-- The entries that `compile_rules` returns hold indices of tries that it returns.
use dae_rs.Prelude.{
  ℕ, ◌≡◌, ◌≤◌, ◌<◌, ap, subst, ◌∙◌, Bool, true, false, List, [], ◌∷◌, ◌++◌, Option, some, length,
  get_elem?, arith,
}
use dae_rs.Text.{Text}
use dae_rs.Ruleset.IpSet.{IpNet, IpAddr}
use dae_rs.Routing.MatchSet.{MatchSet, index_of, index_of-with_index}
use dae_rs.Routing.Matcher.{CompiledRouting}
use dae_rs.Routing.Expression.{ok}
use dae_rs.Routing.Lowering.{build_outbound_id_map}
use dae_rs.Routing.Lowering.Tries.{Tries}
use dae_rs.Routing.Lowering.Entries.Indices.{
  names_trie, HasTrie, AllTries, AllTries-Extends, AllTries-append,
}
use dae_rs.Dns.DomainRoutes.{NormalizedProgram, from_config}
use dae_rs.Routing.Lowering.Compile.{
  max_match_set_len, max_lpm_num, fallback_result, fallback_entry, assemble, RuleSets,
  compile_rules,
}
use dae_rs.Routing.Lowering.Compile.Steps.{
  Steps, compile_program-Steps, lowered-GoodStep, bind_ok, checked_ok, proxy_trie-GoodFront,
}

-- An entry of a type that names a trie names one of these.
abbrev pub NamesTrie : List (List IpNet) → Bool → MatchSet → Type 0
NamesTrie tries false ms = Unit {0}
NamesTrie tries true ms = (nets : List IpNet) × (get_elem? tries (index_of ms.value) ≡ some nets)

abbrev pub AllNamed : List (List IpNet) → List MatchSet → Type 0
AllNamed tries [] = Unit {0}
AllNamed tries (ms ∷ l) = NamesTrie tries (names_trie ms.type) ms × AllNamed tries l

pub get_elem?-some_lt {ℓ} :
    {A : Type ℓ} (xs : List A) (i : ℕ) (a : A) → get_elem? xs i ≡ some a → i < length xs
get_elem?-some_lt [] i a e = ground arith
get_elem?-some_lt (x ∷ xs) ℕ.zero a e = omega arith
get_elem?-some_lt (x ∷ xs) (ℕ.suc i) a e = omega (arith, get_elem?-some_lt xs i a e)

NamesTrie-HasTrie :
    (t : Tries) (b : Bool) (ms : MatchSet)
    → length t.lpm_tries ≤ max_lpm_num
    → HasTrie t b ms
    → NamesTrie t.lpm_tries b ms
NamesTrie-HasTrie t false ms h k = tt
NamesTrie-HasTrie t true ms h k =
    let lt = get_elem?-some_lt t.lpm_tries k.0 k.2 k.3 in
    let at = ap index_of k.1 ∙ index_of-with_index k.0 (omega (arith, lt)) in
    (k.2, ap (get_elem? t.lpm_tries) at ∙ k.3)

AllNamed-AllTries :
    (t : Tries) (l : List MatchSet)
    → length t.lpm_tries ≤ max_lpm_num
    → AllTries t l
    → AllNamed t.lpm_tries l
AllNamed-AllTries t [] h k = tt
AllNamed-AllTries t (ms ∷ l) h k =
    (NamesTrie-HasTrie t (names_trie ms.type) ms h k.0, AllNamed-AllTries t l h k.1)

-- What is within the capacities of the kernel's maps and names only tries that are there.
abbrev pub WithinCapacity : CompiledRouting → Type 0
WithinCapacity c =
    (length c.match_sets ≤ max_match_set_len)
    × (length c.lpm_tries ≤ max_lpm_num)
    × (length c.domain_sets ≤ max_match_set_len)
    × AllNamed c.lpm_tries c.match_sets

module _ (parse_net : Text → Option IpNet) (cache : Option RuleSets) (nodes groups : List Text)
    (proxy_server_ips : List IpAddr) where
  WithinCapacity-Steps :
      (program : NormalizedProgram) (c : CompiledRouting)
      → Steps parse_net cache nodes groups proxy_server_ips program c
      → WithinCapacity c
  WithinCapacity-Steps program c st =
      let fallback = fallback_result program.fallback (build_outbound_id_map nodes groups) in
      let good = lowered-GoodStep parse_net cache nodes groups proxy_server_ips program c st in
      let t = st.lowered.0.tries in
      let tries =
        AllTries-append t st.proxy.1 (st.lowered.1 ++ fallback_entry fallback ∷ [])
          (AllTries-Extends st.proxy.0 t st.proxy.1 good.1
            (proxy_trie-GoodFront _ st.proxy st.proxy_eq).1)
          (AllTries-append t st.lowered.1 (fallback_entry fallback ∷ []) good.2 (tt, tt)) in
      let fits =
        checked_ok (assemble fallback st.domain_sets st.proxy.1 st.lowered) c st.checked_eq in
      subst WithinCapacity fits.0 (fits.1, fits.2, fits.3, AllNamed-AllTries t _ fits.2 tries)

  -- What `compile_rules` returns is within the capacities of the kernel's maps (1024 entries, 1032 tries and
  -- 1024 domain sets), and each of its entries of a type that names a trie (IP_SET, SOURCE_IP_SET, MAC)
  -- holds the index of one of the tries that are returned.
  pub compile_rules-WithinCapacity :
      (rules : List (Text × Text)) (fallback : Text) (c : CompiledRouting)
      → compile_rules parse_net cache nodes groups proxy_server_ips rules fallback ≡ ok c
      → WithinCapacity c
  unfolding compile_rules
  compile_rules-WithinCapacity rules fallback c e =
      let program = bind_ok (from_config rules fallback) _ c e in
      WithinCapacity-Steps program.0 c
        (compile_program-Steps parse_net cache nodes groups proxy_server_ips program.0 c program.2)
