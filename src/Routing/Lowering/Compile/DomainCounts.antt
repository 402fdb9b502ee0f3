-- ===== src/Routing/Lowering/Compile/DomainCounts.antt =====
-- How many entries of type DOMAIN_SET the loops of `compile_rules` make.
use dae_rs.Prelude.{
  ℕ, zero, suc, ◌+◌, ◌≡◌, refl, ap, ap₂, subst, ◌∙◌, Bool, true, false, List, [], ◌∷◌, ◌++◌, Option,
  if◌then◌else◌, length, arith,
}
use dae_rs.Text.{Text, is_empty}
use dae_rs.Ruleset.IpSet.{IpNet}
use dae_rs.Routing.MatchSet.{MatchSet, Value, with_index}
use dae_rs.Routing.Expression.{Function, Outbound, NormalizedRule, ok, err, ◌>>=◌}
use dae_rs.Dns.DomainRoutes.{is_domain_function}
use dae_rs.Routing.Lowering.{
  build_fallback_matchset, TextMap, get, group_params_by_key, resolve_outbound_id,
  compute_override_outbound,
}
use dae_rs.Routing.Lowering.Compile.{
  or_empty, behind, lower_keys, lower_functions, lower_rule, lower_rules,
}
use dae_rs.Routing.Lowering.Entries.{Lowering, Lowered, build_match_set_for_function}
use dae_rs.Routing.Lowering.Entries.Numbering.{
  domain_values, numbered, Counts, Counted, Counted-bind, domain_values_nil, none_counted, one_if,
  build_match_set_for_function-Counted,
}

numbered-append :
    (i j m n k : ℕ) → j ≡ i + m → k ≡ m + n → numbered i m ++ numbered j n ≡ numbered i k
unfolding numbered
numbered-append i j zero n k h e = ap₂ numbered (omega arith) (omega arith)
numbered-append i j (suc m) n k h e =
    ap (λ (l : List Value). with_index i ∷ l)
      (numbered-append (suc i) j m n (m + n) (omega arith) refl)
    ∙ ap (numbered i) (suc_at k e)
  where
    suc_at : (k : ℕ) → k ≡ suc m + n → suc (m + n) ≡ k
    suc_at k e = omega arith

pub domain_values-append :
    (l m : List MatchSet) → domain_values (l ++ m) ≡ domain_values l ++ domain_values m
unfolding domain_values
domain_values-append [] m = refl
domain_values-append (ms ∷ l) m = ground (arith, domain_values-append l m)

Counted-then :
    (m n : ℕ) (s : Lowering) (p : Lowered) (f : Lowering × List MatchSet → Lowered)
    → Counted m s p
    → ((r : Lowering × List MatchSet) → Counted n r.0 (f r))
    → Counted (m + n) s (p >>= λ r. f r >>= behind r.1)
Counted-then m n s (err e) f h k = tt
Counted-then m n s (ok r) f h k = later (f r) (k r)
  where
    later : (q : Lowered) → Counted n r.0 q → Counted (m + n) s (q >>= behind r.1)
    later (err e) k = tt
    later (ok t) k = (
      omega (arith, h.0, k.0),
      domain_values-append r.1 t.1
          ∙ ap₂ (λ (a b : List Value). a ++ b) h.1 (k.1 ∙ ap (λ i. numbered i n) h.0)
          ∙ numbered-append s.rule_domain_idx _ m n _ refl refl,
    )

-- `n` for each element.
abbrev times {ℓ} : {A : Type ℓ} → ℕ → List A → ℕ
times n [] = 0
times n (x ∷ xs) = n + times n xs

times_one {ℓ} : {A : Type ℓ} (xs : List A) → times 1 xs ≡ length xs
times_one [] = refl
times_one (x ∷ xs) = omega (arith, times_one xs)

times_zero {ℓ} : {A : Type ℓ} (xs : List A) → times 0 xs ≡ 0
times_zero [] = refl
times_zero (x ∷ xs) = omega (arith, times_zero xs)

-- The key groups of the domain functions.
abbrev pub key_groups : List Function → ℕ
key_groups [] = 0
key_groups (f ∷ fs) =
    (if is_domain_function f then length (group_params_by_key f.raw_params).key_order else 0)
    + key_groups fs

abbrev pub rule_key_groups : List NormalizedRule → ℕ
rule_key_groups [] = 0
rule_key_groups (r ∷ rs) = key_groups r.and_functions + rule_key_groups rs

-- The domain functions.
abbrev pub domain_functions : List Function → ℕ
domain_functions [] = 0
domain_functions (f ∷ fs) = one_if (is_domain_function f) + domain_functions fs

abbrev pub rule_domain_functions : List NormalizedRule → ℕ
rule_domain_functions [] = 0
rule_domain_functions (r ∷ rs) = domain_functions r.and_functions + rule_domain_functions rs

times-one_if {ℓ} :
    {A : Type ℓ} (b : Bool) (xs : List A) → times (one_if b) xs ≡ (if b then length xs else 0)
times-one_if true xs = times_one xs
times-one_if false xs = times_zero xs

fallback_counted :
    (s : Lowering) (id : ℕ) (o : Outbound) → Counts 0 s (s, build_fallback_matchset id o ∷ [])
unfolding build_fallback_matchset domain_values
fallback_counted s id o = none_counted s s.tries (build_fallback_matchset id o ∷ []) refl

module _ (parse_net : Text → Option IpNet) (sets : Option (Text → Option (List IpNet)))
    (outbound_id_map : TextMap ℕ) where
  lower_keys-Counted :
      (func : Function) (m : TextMap (List Text)) (last : Bool) (outbound : Outbound)
      (keys : List Text) (s : Lowering)
      → Counted
          (times (one_if (is_domain_function func)) keys)
          s
          (lower_keys parse_net sets outbound_id_map func m last outbound keys s)
  unfolding lower_keys
  lower_keys-Counted func m last outbound [] s = none_counted s s.tries [] domain_values_nil
  lower_keys-Counted func m last outbound (key ∷ keys) s =
      let ov = compute_override_outbound (is_empty keys) last outbound in
      Counted-bind _ s (resolve_outbound_id ov outbound_id_map) _ λ id.
        Counted-then (one_if (is_domain_function func)) _ s
          (build_match_set_for_function parse_net sets func (or_empty (get key m)) id ov s) _
          (build_match_set_for_function-Counted parse_net sets func (or_empty (get key m)) id ov s)
          λ r. lower_keys-Counted func m last outbound keys r.0

  lower_functions-Counted :
      (outbound : Outbound) (funcs : List Function) (s : Lowering)
      → Counted
          (key_groups funcs)
          s
          (lower_functions parse_net sets outbound_id_map outbound funcs s)
  unfolding lower_functions
  lower_functions-Counted outbound [] s = none_counted s s.tries [] domain_values_nil
  lower_functions-Counted outbound (func ∷ funcs) s =
      let g = group_params_by_key func.raw_params in
      Counted-then _ _ s _ _
        (subst
          (λ n. Counted n s (
            lower_keys parse_net sets outbound_id_map func g.key_to_values (is_empty funcs) outbound
              g.key_order s))
          (times-one_if (is_domain_function func) g.key_order)
          (lower_keys-Counted func g.key_to_values (is_empty funcs) outbound g.key_order s))
        λ r. lower_functions-Counted outbound funcs r.0

  lower_rule-Counted :
      (rule : NormalizedRule) (s : Lowering)
      → Counted (key_groups rule.and_functions) s (lower_rule parse_net sets outbound_id_map rule s)
  unfolding lower_rule
  lower_rule-Counted rule s =
      Counted-bind _ s (resolve_outbound_id rule.outbound outbound_id_map) _
        λ id. on_functions id rule.and_functions
    where
      on_functions :
          (id : ℕ) (funcs : List Function)
          → Counted (key_groups funcs) s (
              if is_empty funcs
              then ok (s, build_fallback_matchset id rule.outbound ∷ [])
              else lower_functions parse_net sets outbound_id_map rule.outbound funcs s)
      on_functions id [] = fallback_counted s id rule.outbound
      on_functions id (f ∷ fs) = lower_functions-Counted rule.outbound (f ∷ fs) s

  pub lower_rules-Counted :
      (rules : List NormalizedRule) (s : Lowering)
      → Counted (rule_key_groups rules) s (lower_rules parse_net sets outbound_id_map rules s)
  unfolding lower_rules
  lower_rules-Counted [] s = none_counted s s.tries [] domain_values_nil
  lower_rules-Counted (rule ∷ rules) s =
      Counted-then _ _ s _ _ (lower_rule-Counted rule s) λ r. lower_rules-Counted rules r.0
