-- ===== src/Group/Alive.antt =====
-- No dead node is a candidate while some node is alive.
use dae_rs.Prelude.{
  ℕ, zero, suc, ◌+◌, ◌≡◌, refl, ap, ◌∙◌, inl, inr, true, List, [], ◌∷◌, Option, none, some, arith,
  get_elem?, leb, Bool-cases, subst,
}
use dae_rs.Text.{is_empty}
use dae_rs.Group.{
  GroupNode, GroupDialer, is_alive, alive_from, pool, ordered_candidates, PolicyType, fixed, random,
  min, min_avg10, min_moving_avg, insert_by, sort_by, by_policy, latency_key,
}
use dae_rs.Group.Dial.{In}

-- The place holds a node that is alive.
abbrev pub AliveAt : ℕ → List GroupNode → ℕ → Type 0
AliveAt now ns i = (n : GroupNode) × (get_elem? ns i ≡ some n) × (is_alive now n ≡ true)

alive_from-AliveAt :
    (now o : ℕ) (ns : List GroupNode) (i : ℕ)
    → In i (alive_from now o ns)
    → (j : ℕ) × (i ≡ o + j) × AliveAt now ns j
unfolding alive_from
alive_from-AliveAt now o [] i m = absurd m
alive_from-AliveAt now o (n ∷ ns) i m = elim (Bool-cases (is_alive now n)) [
  | inl alive ↦ elim (rw alive at m) [
    | inl e ↦ (0, omega arith, (n, refl, alive))
    | inr rest ↦ let (j, e, x) = alive_from-AliveAt now (suc o) ns i rest in (suc j, omega arith, x)
  ]
  | inr dead ↦
      let (j, e, x) = alive_from-AliveAt now (suc o) ns i (rw dead at m) in (suc j, omega arith, x)
]

alive_from-empty :
    (now o : ℕ) (ns : List GroupNode)
    → is_empty (alive_from now o ns) ≡ true
    → (i : ℕ) → ¬ AliveAt now ns i
unfolding alive_from is_empty
alive_from-empty now o [] h i (n, e, a) = none≢some n e
  where
    none≢some : (n : GroupNode) → ◌≡◌ {A = Option GroupNode} none (some n) → ⊥
    none≢some n e = cc
alive_from-empty now o (m ∷ ms) h zero (n, e, a) =
    let same : m ≡ n = cc e in
    let alive : is_alive now m ≡ true = ap (is_alive now) same ∙ a in ground (arith, alive)
alive_from-empty now o (m ∷ ms) h (suc i) a = elim (Bool-cases (is_alive now m)) [
  | inl alive ↦ ground (arith, alive)
  | inr dead ↦ alive_from-empty now (suc o) ms (rw dead at h) i a
]

pool-AliveAt :
    (now : ℕ) (ns : List GroupNode) (j : ℕ)
    → AliveAt now ns j
    → (i : ℕ) → In i (pool now ns)
    → AliveAt now ns i
unfolding pool
pool-AliveAt now ns j alive i m = elim (Bool-cases (is_empty (alive_from now 0 ns))) [
  | inl none_alive ↦ absurd (alive_from-empty now 0 ns none_alive j alive)
  | inr some_alive ↦
      let (k, e, x) = alive_from-AliveAt now 0 ns i (rw some_alive at m) in
      let same : k ≡ i = omega arith in subst (AliveAt now ns) same x
]

module _ (key : ℕ → ℕ) where
  In-insert_by : (j i : ℕ) (is : List ℕ) → In j (insert_by key i is) → In j (i ∷ is)
  unfolding insert_by
  In-insert_by j i [] m = m
  In-insert_by j i (x ∷ xs) m = elim (Bool-cases (leb (key i) (key x))) [
    | inl first ↦ rw first at m
    | inr later ↦ elim (rw later at m) [
      | inl e ↦ inr (inl e)
      | inr n ↦ elim (In-insert_by j i xs n) [ inl e ↦ inl e | inr k ↦ inr (inr k) ]
    ]
  ]

  In-sort_by : (j : ℕ) (is : List ℕ) → In j (sort_by key is) → In j is
  unfolding sort_by
  In-sort_by j [] m = m
  In-sort_by j (i ∷ is) m = elim (In-insert_by j i (sort_by key is) m) [
    | inl e ↦ inl e
    | inr k ↦ inr (In-sort_by j is k)
  ]

-- With a shuffle that adds no place, and while some node is alive, every candidate of every policy is the
-- place of a node that is alive.
pub ordered_candidates-AliveAt :
    (shuffle : List ℕ → List ℕ)
    → ((is : List ℕ) (i : ℕ) → In i (shuffle is) → In i is)
    → (now : ℕ) (g : GroupDialer) (j : ℕ) → AliveAt now g.nodes j
    → (i : ℕ) → In i (ordered_candidates shuffle now g)
    → AliveAt now g.nodes i
unfolding ordered_candidates
ordered_candidates-AliveAt shuffle fair now g j alive i m =
    pool-AliveAt now g.nodes j alive i (by_policy-In g.policy (pool now g.nodes) m)
  where
    by_policy-In : (p : PolicyType) (is : List ℕ) → In i (by_policy shuffle p g.nodes is) → In i is
    by_policy-In fixed is m = m
    by_policy-In random is m = fair is i m
    by_policy-In min is m = In-sort_by (latency_key g.nodes) i is m
    by_policy-In min_avg10 is m = In-sort_by (latency_key g.nodes) i is m
    by_policy-In min_moving_avg is m = In-sort_by (latency_key g.nodes) i is m
