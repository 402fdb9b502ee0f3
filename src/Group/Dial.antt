-- ===== src/Group/Dial.antt =====
-- A pass over the candidates of a group.
use dae_rs.Prelude.{
  ℕ, zero, suc, ◌+◌, ◌-◌, ◌/◌, ◌%◌, ◌^◌, ◌≡◌, refl, sym, ap, ◌∙◌, ◌⊎◌, inl, inr, ◌≢◌, ◌==◌,
  Option-cases, false, List, [], ◌∷◌, Option, none, some, arith, if◌then◌else◌, get_elem?, ltb,
}
use dae_rs.Group.{
  GroupNode, GroupDialer, mark_alive, mark_dead, in_group_cooldown, enter_group_cooldown,
  clear_group_cooldown, update_node, Attempt, connected, failed, DialError, cooling_down, Dialed,
  ok, err, set_node, dial_loop, ordered_candidates, try_dial, group_all_dead_cooldown,
}

get_elem?-update_node :
    (f : GroupNode → GroupNode) (i : ℕ) (ns : List GroupNode) (j : ℕ)
    → get_elem? (update_node f i ns) j ≡ (
        if i == j
        then elim (get_elem? ns j) [ none ↦ none | some n ↦ some (f n) ]
        else get_elem? ns j)
unfolding update_node
get_elem?-update_node f i [] j = ground arith
get_elem?-update_node f zero (n ∷ ns) zero = refl
get_elem?-update_node f zero (n ∷ ns) (suc j) = ground arith
get_elem?-update_node f (suc i) (n ∷ ns) zero = ground arith
get_elem?-update_node f (suc i) (n ∷ ns) (suc j) = ground (arith, get_elem?-update_node f i ns j)

-- The node at this place is marked dead.
abbrev pub Dead : List GroupNode → ℕ → Type 0
Dead ns i = (n : GroupNode) → get_elem? ns i ≡ some n → n.alive ≡ false

abbrev pub AllDead : List GroupNode → List ℕ → Type 0
AllDead ns [] = Unit {0}
AllDead ns (i ∷ is) = Dead ns i × AllDead ns is

abbrev pub In : ℕ → List ℕ → Type 0
In i [] = ⊥
In i (j ∷ js) = (i ≡ j) ⊎ In i js

Dead-mark_dead :
    (now i : ℕ) (ns : List GroupNode) (j : ℕ)
    → Dead ns j
    → Dead (update_node (mark_dead now) i ns) j
unfolding mark_dead
Dead-mark_dead now i ns j d n e = elim (Option-cases (get_elem? ns j)) [
  | inl f ↦ ground (arith, get_elem?-update_node (mark_dead now) i ns j)
  | inr (m, f) ↦ ground (arith, get_elem?-update_node (mark_dead now) i ns j, d m f)
]

marked-Dead : (now i : ℕ) (ns : List GroupNode) → Dead (update_node (mark_dead now) i ns) i
unfolding mark_dead
marked-Dead now i ns n e = ground (arith, get_elem?-update_node (mark_dead now) i ns i)

Attempt-cases :
    {Conn Error : Type 0} (a : Attempt Conn Error)
    → ((c : Conn) × (a ≡ connected c)) ⊎ ((e : Error) × (a ≡ failed e))
Attempt-cases (connected c) = inl (c, refl)
Attempt-cases (failed e) = inr (e, refl)

module _ {Conn Error : Type 0} (dial : ℕ → ℕ → ℕ × Attempt Conn Error) where
  -- When a pass that dials all of these, one after the other, ends.
  unfoldable pub pass_end : ℕ → List ℕ → ℕ
  pass_end now [] = now
  pass_end now (i ∷ is) = pass_end (dial i now).0 is

  -- A pass that ends in an error began the group's cooldown at its end and left every candidate dead.
  record FailedPass (g g' : GroupDialer) (now : ℕ) (is : List ℕ) : Type 0 where
    cooling : g'.all_dead_until ≡ some (pass_end now is + group_all_dead_cooldown)
    stay_dead : (j : ℕ) → Dead g.nodes j → Dead g'.nodes j
    all_dead : AllDead g'.nodes is

  abbrev after_failure : GroupDialer → ℕ → ℕ → GroupDialer
  after_failure g now i = set_node dial g (mark_dead (dial i now).0) i

  abbrev after_success : GroupDialer → ℕ → ℕ → GroupDialer
  after_success g now i =
      clear_group_cooldown
        (set_node dial g (mark_alive (((dial i now).0 - now) / 1_000_000 % 2 ^ 64)) i)

  dial_loop-connected :
      (g : GroupDialer) (now i : ℕ) (is : List ℕ) (e : Option Error) (c : Conn)
      → (dial i now).1 ≡ connected c
      → dial_loop dial g now (i ∷ is) e ≡ (after_success g now i, ok c)
  unfolding dial_loop
  dial_loop-connected g now i is e c q = rw (q, dial_loop)

  dial_loop-failed :
      (g : GroupDialer) (now i : ℕ) (is : List ℕ) (e : Option Error) (y : Error)
      → (dial i now).1 ≡ failed y
      → dial_loop dial g now (i ∷ is) e
        ≡ dial_loop dial (after_failure g now i) (dial i now).0 is (some y)
  unfolding dial_loop
  dial_loop-failed g now i is e y q = rw (q, dial_loop)

  ok≢err :
      (g g' : GroupDialer) (c : Conn) (x : DialError Error)
      → ¬ (◌≡◌ {A = GroupDialer × Dialed Conn Error} (g, ok c) (g', err x))
  ok≢err g g' c x e = cc

  falls_back :
      (is : List ℕ) (i : ℕ) (g : GroupDialer) (now : ℕ) (e : Option Error)
      → In i is
      → ((t : ℕ) → (c : Conn) × ((dial i t).1 ≡ connected c))
      → (c : Conn) × (g' : GroupDialer) × (dial_loop dial g now is e ≡ (g', ok c))
        × (g'.all_dead_until ≡ none)
  falls_back [] i g now e m works = absurd m
  falls_back (j ∷ js) i g now e m works = elim (Attempt-cases (dial j now).1) [
    | inl (c, q) ↦ (
      c,
      after_success g now j,
      dial_loop-connected g now j js e c q,
      unfold clear_group_cooldown in refl,
    )
    | inr (y, q) ↦
        let in_rest : In i js = elim m [ inl f ↦ absurd (not_works f y q) | inr n ↦ n ] in
        let (c, g', r, a) =
          falls_back js i (after_failure g now j) (dial j now).0 (some y) in_rest works in
        (c, g', dial_loop-failed g now j js e y q ∙ r, a)
  ]
    where
      not_works : i ≡ j → (y : Error) → (dial j now).1 ≢ failed y
      not_works f y q = ground (arith, f, q, (works now).1)

  dial_loop-FailedPass :
      (is : List ℕ) (g : GroupDialer) (now : ℕ) (e : Option Error) {g' : GroupDialer}
      {x : DialError Error}
      → dial_loop dial g now is e ≡ (g', err x)
      → FailedPass g g' now is
  unfolding dial_loop enter_group_cooldown pass_end
  dial_loop-FailedPass [] g now e {g'} r = record {
    cooling = ground arith;
    stay_dead = λ j d. rw (← nodes_same) d;
    all_dead = tt;
  }
    where
      nodes_same : g.nodes ≡ g'.nodes
      nodes_same = ap (λ (p : GroupDialer × Dialed Conn Error). p.0.nodes) r
  dial_loop-FailedPass (i ∷ is) g now e {g'} {x} r = elim (Attempt-cases (dial i now).1) [
    | inl (c, q) ↦ absurd (ok≢err _ g' c x (sym (dial_loop-connected g now i is e c q) ∙ r))
    | inr (y, q) ↦
        let p =
          dial_loop-FailedPass is (after_failure g now i) (dial i now).0 (some y)
            (sym (dial_loop-failed g now i is e y q) ∙ r) in
        record {
          cooling = p.cooling;
          stay_dead = λ j d. p.stay_dead j (Dead-mark_dead (dial i now).0 i g.nodes j d);
          all_dead = (p.stay_dead i (marked-Dead (dial i now).0 i g.nodes), p.all_dead);
        }
  ]

  -- Where the group is not cooling down, a dial that fails leaves every candidate marked dead and puts
  -- the group in its cooldown of ten seconds from the end of the pass over the candidates: until then a
  -- dial fails at once and changes nothing, and from then on a dial makes a new pass.
  pub try_dial-FailedPass :
      (shuffle : List ℕ → List ℕ) (now : ℕ) (g g' : GroupDialer) (x : DialError Error) (later : ℕ)
      → in_group_cooldown now g ≡ false
      → try_dial dial shuffle now g ≡ (g', err x)
      → AllDead g'.nodes (ordered_candidates shuffle now g)
        × (try_dial dial shuffle later g' ≡ (
            if ltb later (pass_end now (ordered_candidates shuffle now g) + group_all_dead_cooldown)
            then (g', err cooling_down)
            else dial_loop dial g' later (ordered_candidates shuffle later g') none))
  unfolding try_dial in_group_cooldown
  try_dial-FailedPass shuffle now g g' x later awake r =
      let p = dial_loop-FailedPass (ordered_candidates shuffle now g) g now none (rw awake at r) in
      (p.all_dead, rw p.cooling refl)

  -- Where the group is not cooling down and some candidate connects whenever it is dialed, the dial
  -- succeeds, whatever the other candidates do, and the cooldown is cleared.
  pub try_dial-falls_back :
      (shuffle : List ℕ → List ℕ) (now : ℕ) (g : GroupDialer) (i : ℕ)
      → in_group_cooldown now g ≡ false
      → In i (ordered_candidates shuffle now g)
      → ((t : ℕ) → (c : Conn) × ((dial i t).1 ≡ connected c))
      → (c : Conn) × (g' : GroupDialer) × (try_dial dial shuffle now g ≡ (g', ok c))
        × (g'.all_dead_until ≡ none)
  unfolding try_dial
  try_dial-falls_back shuffle now g i awake m works =
      let (c, g', e, f) = falls_back (ordered_candidates shuffle now g) i g now none m works in
      (c, g', rw awake e, f)
