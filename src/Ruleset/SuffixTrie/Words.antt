-- ===== src/Ruleset/SuffixTrie/Words.antt =====
-- `insert` adds one word to those that the trie accepts.
use mathlib.Core.List.{reverse, reverse-cons, reverse-reverse}
use dae_rs.Prelude.{
  ℕ, ◌<◌, ◌≡◌, refl, sym, ap, ap₂, ◌∙◌, ◌≢◌, Bool, false, ◌||◌, List, [], ◌∷◌, ◌++◌, Option, none,
  some, arith, ◌==◌, length, append_assoc, append-nil, Option-cases, inl, inr, Bool-cases,
}
use dae_rs.Text.Equality.{text_eq_iff}
use dae_rs.Text.Dots.{split-injective}
use dae_rs.Text.{Text, text_eq, split}
use dae_rs.Ruleset.SuffixTrie.{
  SuffixTrie, set_terminal, update, child, child_of, is_terminal, terminal_of, insert_labels,
  insert,
}
use dae_rs.Ruleset.SuffixTrie.Arena.{
  Extends, HasPaths, get_elem?-update, get_elem?-above, get_elem?-below, length-update,
  terminal_above,
}
use dae_rs.Ruleset.SuffixTrie.Steps.{
  child_below, walk, walk-Extends, walk-path, walk_back, Inserted, path_from,
  insert_labels-Inserted,
}

unfoldable pub ends_at : SuffixTrie → Option ℕ → Bool
ends_at ns none = false
ends_at ns (some i) = is_terminal ns i

-- A value with these labels, from the first on, was inserted.
unfoldable pub accepts : SuffixTrie → List Text → Bool
accepts ns p = ends_at ns (walk ns p)

child-terminal :
    (ns : SuffixTrie) (w n : ℕ) (l : Text) → child (update ns w set_terminal) n l ≡ child ns n l
unfolding child child_of
child-terminal ns w n l = ground (arith, get_elem?-update ns w set_terminal n)

walk-terminal :
    (ns : SuffixTrie) (w : ℕ) (p : List Text) → walk (update ns w set_terminal) p ≡ walk ns p
unfolding walk child_below
walk-terminal ns w [] = refl
walk-terminal ns w (l ∷ p) = elim (Option-cases (walk ns p)) [
  | inl e ↦ rw (walk-terminal ns w p, e) refl
  | inr (n, e) ↦ rw (walk-terminal ns w p, e) (child-terminal ns w n l)
]

terminal-terminal :
    (ns : SuffixTrie) (w i : ℕ)
    → w < length ns
    → is_terminal (update ns w set_terminal) i ≡ (w == i || is_terminal ns i)
unfolding is_terminal terminal_of
terminal-terminal ns w i h =
    ground (arith, get_elem?-update ns w set_terminal i, get_elem?-below ns i, get_elem?-above ns i)

-- New nodes end no word.
accepts-Extends :
    {path_to : ℕ → List Text} {ns ns' : SuffixTrie} (p : List Text)
    → Extends ns ns'
    → HasPaths path_to ns
    → accepts ns' p ≡ accepts ns p
unfolding accepts ends_at
accepts-Extends {ns = ns} {ns' = ns'} p x h = elim (Option-cases (walk ns p)) [
  | inr (i, e) ↦ rw (e, walk-Extends p i x e) (x.terminals i)
  | inl e ↦ elim (Option-cases (walk ns' p)) [
    | inl f ↦ rw (e, f)
    | inr (i, f) ↦
        rw (e, f) (ground (arith, x.terminals i, terminal_above ns i, walk_back p i x h f))
  ]
]

pub record IsTree (ns : SuffixTrie) : Type 0 where
  pub path_to : ℕ → List Text
  pub paths : HasPaths path_to ns

path_from-reverse : (p ls : List Text) → path_from p ls ≡ reverse ls ++ p
path_from-reverse p [] = refl
path_from-reverse p (l ∷ ls) =
    path_from-reverse (l ∷ p) ls ∙ rw reverse-cons (sym (append_assoc (reverse ls) (l ∷ []) p))

path_from-split : (v : Text) → path_from [] (reverse (split b'.' v)) ≡ split b'.' v
path_from-split v =
    path_from-reverse [] (reverse (split b'.' v))
    ∙ append-nil (reverse (reverse (split b'.' v)))
    ∙ reverse-reverse (split b'.' v)

is_at : Option ℕ → ℕ → Bool
is_at none w = false
is_at (some i) w = w == i

-- To mark a node is to accept its path.
accepts-marked :
    (ns : SuffixTrie) (w : ℕ) (p : List Text)
    → w < length ns
    → accepts (update ns w set_terminal) p ≡ (is_at (walk ns p) w || accepts ns p)
unfolding accepts ends_at is_at
accepts-marked ns w p h = elim (Option-cases (walk ns p)) [
  | inl e ↦ rw (walk-terminal ns w p, e)
  | inr (i, e) ↦ rw (walk-terminal ns w p, e) (terminal-terminal ns w i h)
]

module _ (ns : SuffixTrie) (t : IsTree ns) (v : Text) where
  grown : SuffixTrie × ℕ
  grown = insert_labels ns 0 (reverse (split b'.' v))

  grown-Inserted : Inserted ns (split b'.' v) grown
  unfolding grown walk
  grown-Inserted =
      rw (path_from-split v) at
        (insert_labels-Inserted ns 0 [] (reverse (split b'.' v)) t.paths refl)

  in_arena : grown.1 < length grown.0
  in_arena =
      (walk-path grown.0 (split b'.' v) grown.1 grown-Inserted.paths grown-Inserted.reached).1

  pub insert-IsTree : IsTree (insert ns v)
  unfolding insert grown
  insert-IsTree = record {
    path_to = g.path_to;
    paths = record {
      to_root = g.paths.to_root;
      has_root = rw (length-update grown.0 grown.1 set_terminal) g.paths.has_root;
      bounded = λ n l i e.
          rw (length-update grown.0 grown.1 set_terminal)
            (g.paths.bounded n l i (sym (child-terminal grown.0 grown.1 n l) ∙ e));
      to_child = λ n l i e. g.paths.to_child n l i (sym (child-terminal grown.0 grown.1 n l) ∙ e);
    };
  }
    where
      g : Inserted ns (split b'.' v) grown
      g = grown-Inserted

  -- The walk ends at the marked node for the inserted value alone.
  is_at-grown : (q : Text) → is_at (walk grown.0 (split b'.' q)) grown.1 ≡ text_eq q v
  is_at-grown q = elim (Bool-cases (text_eq q v)) [
    | inl e ↦ rw e (rw ((text_eq_iff q v).0 e) (rw g.reached (unfold is_at in ground arith)))
    | inr e ↦ rw e (elsewhere (walk grown.0 (split b'.' q)) refl e)
  ]
    where
      g : Inserted ns (split b'.' v) grown
      g = grown-Inserted

      differs : (i : ℕ) → walk grown.0 (split b'.' q) ≡ some i → text_eq q v ≡ false → grown.1 ≢ i
      differs i w e same =
          let at_q : g.path_to i ≡ split b'.' q =
            (walk-path grown.0 (split b'.' q) i g.paths w).0 in
          let at_v : g.path_to grown.1 ≡ split b'.' v =
            (walk-path grown.0 (split b'.' v) grown.1 g.paths g.reached).0 in
          ground (
            arith,
            split-injective q v (sym at_q ∙ ap g.path_to (sym same) ∙ at_v),
            text_eq_iff q v,
          )

      elsewhere :
          (o : Option ℕ)
          → walk grown.0 (split b'.' q) ≡ o
          → text_eq q v ≡ false
          → is_at o grown.1 ≡ false
      elsewhere none w e = unfold is_at in refl
      elsewhere (some i) w e = unfold is_at in ground (arith, differs i w e)

  -- One more word.
  pub accepts-insert :
      (q : Text) → accepts (insert ns v) (split b'.' q) ≡ (text_eq q v || accepts ns (split b'.' q))
  accepts-insert q =
      ap (λ (m : SuffixTrie). accepts m (split b'.' q)) insert-grown
      ∙ accepts-marked grown.0 grown.1 (split b'.' q) in_arena
      ∙ ap₂ ◌||◌ (is_at-grown q) (accepts-Extends (split b'.' q) grown-Inserted.extends t.paths)
    where
      insert-grown : insert ns v ≡ update grown.0 grown.1 set_terminal
      insert-grown = unfold insert grown in refl
