-- ===== src/Ruleset/SuffixTrie/Steps.antt =====
-- Inserting labels keeps the arena a tree, and reaches the node of the whole path.
use dae_rs.Prelude.{
  ℕ, ◌+◌, ◌<◌, ◌≡◌, refl, ◌&&◌, List, [], ◌∷◌, ◌++◌, Option, none, some, arith, ◌==◌, if◌then◌else◌,
  length, length-append, Option-cases, inl, inr,
}
use dae_rs.Text.Equality.{text_eq_iff}
use dae_rs.Text.{Text, text_eq}
use dae_rs.Ruleset.SuffixTrie.{
  SuffixTrie, empty_node, add_child, update, child, step_for, step, insert_labels,
}
use dae_rs.Ruleset.SuffixTrie.Arena.{
  Extends, HasPaths, Extends-refl, Extends-trans, child-made, terminal-made, length-update,
  child_above,
}

-- The node at the end of a path, the deepest label first.
unfoldable pub child_below : SuffixTrie → Option ℕ → Text → Option ℕ
child_below ns none l = none
child_below ns (some n) l = child ns n l

unfoldable pub walk : SuffixTrie → List Text → Option ℕ
walk ns [] = some 0
walk ns (l ∷ p) = child_below ns (walk ns p) l

pub walk-Extends :
    {ns ns' : SuffixTrie} (p : List Text) (i : ℕ)
    → Extends ns ns'
    → walk ns p ≡ some i
    → walk ns' p ≡ some i
unfolding walk child_below
walk-Extends [] i x e = e
walk-Extends {ns} (l ∷ p) i x e = elim (Option-cases (walk ns p)) [
  | inl f ↦ ground arith
  | inr (n, f) ↦ ground (arith, walk-Extends p n x f, x.keeps n l i)
]

pub walk-path :
    {path_to : ℕ → List Text} (ns : SuffixTrie) (p : List Text) (i : ℕ)
    → HasPaths path_to ns
    → walk ns p ≡ some i
    → (path_to i ≡ p) × (i < length ns)
unfolding walk child_below
walk-path ns [] i h e = ground (arith, h.to_root, h.has_root)
walk-path ns (l ∷ p) i h e = elim (Option-cases (walk ns p)) [
  | inl f ↦ ground arith
  | inr (n, f) ↦ ground (arith, walk-path ns p n h f, h.to_child n l i, h.bounded n l i)
]

-- A path of the larger arena that ends at an old node is an old path.
pub walk_back :
    {path_to : ℕ → List Text} {ns ns' : SuffixTrie} (p : List Text) (i : ℕ)
    → Extends ns ns'
    → HasPaths path_to ns
    → walk ns' p ≡ some i
    → i < length ns
    → walk ns p ≡ some i
unfolding walk child_below
walk_back [] i x h e b = e
walk_back {ns = ns} {ns' = ns'} (l ∷ p) i x h e b = elim (Option-cases (walk ns' p)) [
  | inl f ↦ ground arith
  | inr (n, f) ↦ ground (arith, x.old_edges n l i, child_above ns n l, walk_back p n x h f)
]

pub record Inserted (ns : SuffixTrie) (p : List Text) (r : SuffixTrie × ℕ) : Type 0 where
  pub extends : Extends ns r.0
  pub path_to : ℕ → List Text
  pub paths : HasPaths path_to r.0
  pub reached : walk r.0 p ≡ some r.1

step-Inserted :
    {path_to : ℕ → List Text} (ns : SuffixTrie) (node : ℕ) (p : List Text) (l : Text)
    → HasPaths path_to ns
    → walk ns p ≡ some node
    → (o : Option ℕ) → child ns node l ≡ o
    → Inserted ns (l ∷ p) (step_for o ns node l)
unfolding step_for
step-Inserted {path_to} ns node p l h w (some i) e = record {
  extends = Extends-refl ns;
  path_to = path_to;
  paths = h;
  reached = unfold walk child_below in rw w e;
}
step-Inserted {path_to} ns node p l h w none e = record {
  extends = bigger;
  path_to = with_new;
  paths = record {
    to_root = ground (arith, h.to_root, h.has_root);
    has_root = omega (arith, bigger.grows, h.has_root);
    bounded = λ n k i f. ground (arith, made n k, h.bounded n k i, length-made);
    to_child = λ n k i f. ground (
      arith,
      made n k,
      h.bounded n k i,
      h.to_child n k i,
      text_eq_iff l k,
      at_node,
      child_above ns n k,
    );
  };
  reached =
      unfold walk child_below in
      rw (walk-Extends p node bigger w) (ground (arith, made node l, text_eq_iff l l));
}
  where
    ns' : SuffixTrie
    ns' = update (ns ++ empty_node ∷ []) node (add_child l (length ns))

    at_node : node < length ns
    at_node = (walk-path ns p node h w).1

    made :
        (i : ℕ) (k : Text)
        → child ns' i k ≡ (if node == i && text_eq l k then some (length ns) else child ns i k)
    made i k = child-made ns node l i k at_node

    length-made : length ns' ≡ length ns + 1
    length-made = omega (
      arith,
      length-update (ns ++ empty_node ∷ []) node (add_child l (length ns)),
      length-append ns (empty_node ∷ []),
    )

    bigger : Extends ns ns'
    bigger = record {
      grows = omega (arith, length-made);
      keeps = λ n k i f. ground (arith, made n k, text_eq_iff l k);
      old_edges = λ n k i f b. ground (arith, made n k);
      terminals = terminal-made ns node l;
    }

    with_new : ℕ → List Text
    with_new j = if j == length ns then l ∷ path_to node else path_to j

-- The path of labels, from the root on, below the path `p`.
abbrev pub path_from : List Text → List Text → List Text
path_from p [] = p
path_from p (l ∷ ls) = path_from (l ∷ p) ls

pub insert_labels-Inserted :
    (ns : SuffixTrie) (node : ℕ) (p : List Text) (ls : List Text) {path_to : ℕ → List Text}
    → HasPaths path_to ns
    → walk ns p ≡ some node
    → Inserted ns (path_from p ls) (insert_labels ns node ls)
unfolding insert_labels step
insert_labels-Inserted ns node p [] {path_to} h w = record {
  extends = Extends-refl ns;
  path_to = path_to;
  paths = h;
  reached = w;
}
insert_labels-Inserted ns node p (l ∷ ls) h w =
    let one = step-Inserted ns node p l h w (child ns node l) refl in
    let r = step ns node l in
    let all = insert_labels-Inserted r.0 r.1 (l ∷ p) ls one.paths one.reached in
    record {
      extends = Extends-trans one.extends all.extends;
      path_to = all.path_to;
      paths = all.paths;
      reached = all.reached;
    }
