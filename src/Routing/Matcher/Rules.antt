-- ===== src/Routing/Matcher/Rules.antt =====
-- `match_routing` seen rule by rule: which rule it takes.
use dae_rs.Prelude.{
  Option, ap, ◌≡◌, refl, ◌∙◌, Bool, true, false, not, ◌&&◌, ◌||◌, List, [], ◌∷◌, ◌++◌,
  if◌then◌else◌, ◌==◌, arith,
}
use dae_rs.Text.Equality.{any}
use dae_rs.Routing.MatchSet.{MatchSet, is_linked, not_linked}
use dae_rs.Routing.MatchSet.Outbound
use dae_rs.Text.{Text}
use dae_rs.Routing.Matcher.{
  RoutingMatcher, RoutingParams, eval_match, match_routing, RoutingResult, Flags, cleared,
  result_of, walk,
}

-- The entries of one rule: those linked to the next by LOGICAL_OR or LOGICAL_AND, and the last.
pub record RuleEntries : Type 0 where
  pub linked : List MatchSet
  pub last : MatchSet

abbrev pub AllLinked : List MatchSet → Type 0
AllLinked [] = Unit {0}
AllLinked (ms ∷ rest) = (is_linked ms.outbound ≡ true) × AllLinked rest

abbrev pub IsRule : RuleEntries → Type 0
IsRule r = AllLinked r.linked × (is_linked r.last.outbound ≡ false)

abbrev pub AllRules : List RuleEntries → Type 0
AllRules [] = Unit {0}
AllRules (r ∷ rs) = IsRule r × AllRules rs

abbrev pub entries : List RuleEntries → List MatchSet
entries [] = []
entries (r ∷ rs) = r.linked ++ (r.last ∷ entries rs)

module _ (eval : MatchSet → Bool) where
  -- An entry sets one of the flags.
  abbrev pub settles : MatchSet → Bool
  settles ms = ms.negated || eval ms

  abbrev pub hits : MatchSet → Bool
  hits ms = if ms.negated then not (eval ms) else eval ms

  -- The loops take a rule when none of its linked entries sets a flag and its last entry hits.
  abbrev pub taken : RuleEntries → Bool
  taken r = not (any settles r.linked) && hits r.last

module _ (eval : MatchSet → Bool) (fallback : RoutingResult) where
  unfoldable pub first_taken : Bool → List RuleEntries → RoutingResult
  unfolding any
  first_taken must_flag [] = fallback
  first_taken must_flag (r ∷ rs) =
      let other = first_taken false rs in
      let under_must = first_taken true rs in
      if taken eval r
      then (if r.last.outbound == Outbound.must_rules
          then under_must
          else result_of r.last (must_flag))
      else other

  abbrev pub flags : Bool → Flags
  flags must_flag = record { good_subrule = false; bad_rule = false; must_flag = must_flag }

  -- Once a flag is set, the rest of the rule is passed over.
  walk-set :
      (fl : Flags) (l : List MatchSet) (last : MatchSet) (rest : List MatchSet)
      → (fl.good_subrule || fl.bad_rule) ≡ true
      → AllLinked l
      → is_linked last.outbound ≡ false
      → walk eval fallback fl (l ++ (last ∷ rest)) ≡ walk eval fallback cleared rest
  unfolding walk
  walk-set fl [] last rest f h e = ground (arith, not_linked last.outbound e)
  walk-set fl (ms ∷ l) last rest f h e = ground (arith, walk-set fl l last rest f h.1 e)

  pub walk-rule :
      (must_flag : Bool) (l : List MatchSet) (last : MatchSet) (rest : List MatchSet)
      → AllLinked l
      → is_linked last.outbound ≡ false
      → walk eval fallback (flags must_flag) (l ++ (last ∷ rest)) ≡ (
          if not (any (settles eval) l) && hits eval last
          then (if last.outbound == Outbound.must_rules
              then walk eval fallback (flags true) rest
              else result_of last must_flag)
          else walk eval fallback cleared rest)
  unfolding walk any
  walk-rule must_flag [] last rest h e = ground arith
  walk-rule must_flag (ms ∷ l) last rest h e = ground (
    arith,
    walk-rule must_flag l last rest h.1 e,
    walk-set (after must_flag (hits eval ms)) l last rest,
    h.0,
  )
    where
      after : Bool → Bool → Flags
      after m good = record { good_subrule = good; bad_rule = not good; must_flag = m }

  -- The two loops, from any must flag.
  pub walk-first_taken :
      (must_flag : Bool) (rules : List RuleEntries)
      → AllRules rules
      → walk eval fallback (flags must_flag) (entries rules) ≡ first_taken must_flag rules
  unfolding first_taken
  walk-first_taken must_flag [] w = unfold walk in refl
  walk-first_taken must_flag (r ∷ rs) w =
      walk-rule must_flag r.linked r.last (entries rs) w.0.0 w.0.1
      ∙ ground (arith, walk-first_taken false rs w.1, walk-first_taken true rs w.1)

-- Where the entries are those of a list of well-formed rules, `match_routing` returns the result of the
-- first rule that is taken, with the fallback after the last; a taken rule whose outbound is MUST_RULES
-- sets the must flag of the very next rule, and of that rule alone.
pub match_routing-first_taken :
    (regex_new : Text → Option (Text → Bool)) (m : RoutingMatcher) (p : RoutingParams)
    (rules : List RuleEntries)
    → m.match_sets ≡ entries rules
    → AllRules rules
    → match_routing regex_new m p
      ≡ first_taken (λ ms. eval_match regex_new m ms p) m.fallback false rules
unfolding match_routing
match_routing-first_taken regex_new m p rules e w =
    ap (walk (λ ms. eval_match regex_new m ms p) m.fallback cleared) e
    ∙ walk-first_taken (λ ms. eval_match regex_new m ms p) m.fallback false rules w
