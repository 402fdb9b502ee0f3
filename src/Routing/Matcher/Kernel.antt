-- ===== src/Routing/Matcher/Kernel.antt =====
-- bpf/kern/tproxy.c: the loop of `route()` (`route_loop_cb`, `route_finalize_match`), which
-- `match_routing` is meant to mirror, and where the two agree.
use mathlib.Core.Option.{get_or}
use dae_rs.Prelude.{
  ℕ, ◌≡◌, refl, ◌∙◌, Bool, true, false, not, ◌||◌, List, [], ◌∷◌, ◌++◌, Option, none, some,
  if◌then◌else◌, ◌==◌, arith,
}
use dae_rs.Text.Equality.{any}
use dae_rs.Routing.MatchSet.{MatchSet, is_linked, not_linked}
use dae_rs.Routing.MatchSet.MatchType
use dae_rs.Routing.MatchSet.Outbound
use dae_rs.Routing.Matcher.{
  RoutingResult, Flags, cleared, Verdict, goes_on, returns, result_of, walk,
}
use dae_rs.Routing.Matcher.Rules.{AllLinked, hits, settles, walk-rule}

abbrev same : Bool → Bool → Bool
same true b = b
same false b = not b

-- `route_finalize_match`, which closes the subrule and the rule.
unfoldable pub finalize_match : Flags → MatchSet → Bool → Verdict
finalize_match fl ms good =
    let closes = not (ms.outbound == Outbound.logical_or) in
    let bad = if closes then fl.bad_rule || same good ms.negated else fl.bad_rule in
    let good' = if closes then false else good in
    if is_linked ms.outbound
    then goes_on (record fl { good_subrule = good'; bad_rule = bad })
    else if bad
    then goes_on (record fl { good_subrule = good'; bad_rule = false })
    else if ms.outbound == Outbound.must_rules
    then goes_on (record { good_subrule = good'; bad_rule = false; must_flag = true })
    else returns (result_of ms fl.must_flag)

-- The cases of the switch in `route_eval_match`; another type is the error -EINVAL.
abbrev pub kernel_types : List ℕ
kernel_types =
    MatchType.mac ∷ MatchType.ip_set ∷ MatchType.source_ip_set ∷ MatchType.port
    ∷ MatchType.source_port ∷ MatchType.l4_proto ∷ MatchType.ip_version ∷ MatchType.domain_set
    ∷ MatchType.process_name ∷ MatchType.dscp ∷ MatchType.fallback ∷ []

-- `test` is what a case tests, with -EFAULT as `none`.
unfoldable pub route_eval_match : (MatchSet → Option Bool) → MatchSet → Option Bool
unfolding any
route_eval_match test ms = if any (λ t. t == ms.type) kernel_types then test ms else none

unfoldable pub finalize_evaluated : Flags → MatchSet → Option Bool → Option Verdict
unfolding finalize_match
finalize_evaluated fl ms none = none
finalize_evaluated fl ms (some matched) = some (finalize_match fl ms matched)

-- `route_loop_cb`, for an entry that the array has: it is evaluated while no flag of the rule is set. An evaluation that fails
-- ends the loop.
unfoldable pub kernel_round : Flags → MatchSet → Option Bool → Option Verdict
unfolding finalize_match finalize_evaluated
kernel_round fl ms evaluated =
    if fl.good_subrule || fl.bad_rule
    then some (finalize_match fl ms fl.good_subrule)
    else finalize_evaluated fl ms evaluated

and_codes :
    (o : ℕ) → o ≡ Outbound.logical_and → (is_linked o ≡ true) × ((o == Outbound.logical_or) ≡ false)
and_codes o e = rw e (refl, refl)

-- `none` is the error -EPERM: no match set hits, or an evaluation failed and left the result negative.
module _ (test : MatchSet → Option Bool) where
  abbrev on_verdict : (Flags → Option RoutingResult) → Option Verdict → Option RoutingResult
  on_verdict next none = none
  on_verdict next (some (goes_on fl)) = next fl
  on_verdict next (some (returns r)) = some r

  unfoldable pub route : Flags → List MatchSet → Option RoutingResult
  unfolding kernel_round route_eval_match
  route fl [] = none
  route fl (ms ∷ rest) =
      on_verdict (λ fl'. route fl' rest) (kernel_round fl ms (route_eval_match test ms))

module _ (eval : MatchSet → Bool) (test : MatchSet → Option Bool) where
  -- The kernel's evaluation succeeds, and answers as the userspace one.
  abbrev pub Agrees : MatchSet → Type 0
  Agrees ms = route_eval_match test ms ≡ some (eval ms)

  -- Entries that are rules of their own, with an outbound other than MUST_RULES.
  abbrev pub AllSingle : List MatchSet → Type 0
  AllSingle [] = Unit {0}
  AllSingle (ms ∷ rest) =
      Agrees ms
      × (is_linked ms.outbound ≡ false)
      × ((ms.outbound == Outbound.must_rules) ≡ false)
      × AllSingle rest

  -- Where every rule is one entry, with an outbound other than MUST_RULES, and every entry is one
  -- that the kernel evaluates without an error and as the userspace matcher does, the userspace loops
  -- return what the kernel's loop returns, or the fallback where the kernel finds no match set.
  pub walk-route :
      (fallback : RoutingResult) (l : List MatchSet)
      → AllSingle l
      → walk eval fallback cleared l ≡ get_or (route test cleared l) fallback
  unfolding walk route
  walk-route fallback [] s = refl
  walk-route fallback (ms ∷ l) s =
      ground (arith, s.0, not_linked ms.outbound s.1, walk-route fallback l s.3)

  -- Entries that LOGICAL_AND links to the next, and that all hit.
  abbrev pub AllHit : List MatchSet → Type 0
  AllHit [] = Unit {0}
  AllHit (ms ∷ rest) =
      (ms.outbound ≡ Outbound.logical_and) × (hits eval ms ≡ true) × Agrees ms × AllHit rest

  route-AllHit :
      (l rest : List MatchSet) → AllHit l → route test cleared (l ++ rest) ≡ route test cleared rest
  unfolding route
  route-AllHit [] rest h = refl
  route-AllHit (ms ∷ l) rest h =
      ground (arith, h.2, route-AllHit l rest h.3, and_codes ms.outbound h.0)

  -- Of a rule of several AND-linked entries that all hit, in the kernel too, the last with an outbound that
  -- is not linked and is not MUST_RULES, the kernel's loop returns the result, while the userspace loops answer as if the
  -- rule were not there.
  pub linked_rule_skipped :
      (fallback : RoutingResult) (first : MatchSet) (l : List MatchSet) (last : MatchSet)
      (rest : List MatchSet)
      → AllHit (first ∷ l)
      → is_linked last.outbound ≡ false
      → (last.outbound == Outbound.must_rules) ≡ false
      → hits eval last ≡ true
      → Agrees last
      → (walk eval fallback cleared ((first ∷ l) ++ (last ∷ rest))
          ≡ walk eval fallback cleared rest)
        × (route test cleared ((first ∷ l) ++ (last ∷ rest)) ≡ some (result_of last false))
  linked_rule_skipped fallback first l last rest h e m k a = (
    ground (
      arith,
      walk-rule eval fallback false (first ∷ l) last rest (all_linked (first ∷ l) h) e,
      settled first l h,
    ),
    route-AllHit (first ∷ l) (last ∷ rest) h
        ∙ (unfold route in ground (arith, not_linked last.outbound e)),
  )
    where
      all_linked : (l : List MatchSet) → AllHit l → AllLinked l
      all_linked [] h = tt
      all_linked (ms ∷ l) h = ((and_codes ms.outbound h.0).0, all_linked l h.3)

      settled :
          (ms : MatchSet) (l : List MatchSet) → AllHit (ms ∷ l) → any (settles eval) (ms ∷ l) ≡ true
      settled ms l h = unfold any in ground arith
