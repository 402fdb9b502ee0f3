-- ===== src/Ruleset/SuffixTrie/Arena.antt =====
-- How the arena changes while labels are inserted: old edges stay, new edges lead to new nodes,
-- and each node is reached by one path of labels.
use dae_rs.Prelude.{
  ℕ, zero, suc, ◌≤◌, ◌<◌, ◌≡◌, refl, ap, ◌∙◌, false, ◌&&◌, List, [], ◌∷◌, ◌++◌, none, some, arith,
  ◌==◌, if◌then◌else◌, length, get_elem?,
}
use dae_rs.Text.{Text, text_eq}
use dae_rs.Ruleset.SuffixTrie.{
  SuffixTrieNode, SuffixTrie, empty_node, get_child, add_child, update, child_of, child,
  terminal_of, is_terminal,
}

pub get_elem?-update :
    (ns : SuffixTrie) (i : ℕ) (f : SuffixTrieNode → SuffixTrieNode) (j : ℕ)
    → get_elem? (update ns i f) j ≡ (
        if i == j
        then elim (get_elem? ns j) [ none ↦ none | some n ↦ some (f n) ]
        else get_elem? ns j)
unfolding update
get_elem?-update [] i f j = ground arith
get_elem?-update (n ∷ ns) zero f zero = refl
get_elem?-update (n ∷ ns) zero f (suc j) = ground arith
get_elem?-update (n ∷ ns) (suc i) f zero = ground arith
get_elem?-update (n ∷ ns) (suc i) f (suc j) = ground (arith, get_elem?-update ns i f j)

pub length-update :
    (ns : SuffixTrie) (i : ℕ) (f : SuffixTrieNode → SuffixTrieNode)
    → length (update ns i f) ≡ length ns
unfolding update
length-update [] i f = refl
length-update (n ∷ ns) zero f = refl
length-update (n ∷ ns) (suc i) f = ap suc (length-update ns i f)

pub get_elem?-above : (ns : SuffixTrie) (i : ℕ) → length ns ≤ i → get_elem? ns i ≡ none
get_elem?-above [] i h = refl
get_elem?-above (n ∷ ns) zero h = absurd (omega arith)
get_elem?-above (n ∷ ns) (suc i) h = get_elem?-above ns i (omega arith)

pub get_elem?-below :
    (ns : SuffixTrie) (i : ℕ) → i < length ns → (n : SuffixTrieNode) × (get_elem? ns i ≡ some n)
get_elem?-below [] i h = elim h [ ]
get_elem?-below (n ∷ ns) zero h = (n, refl)
get_elem?-below (n ∷ ns) (suc i) h = get_elem?-below ns i (omega arith)

get_elem?-concat :
    (ns : SuffixTrie) (i : ℕ)
    → get_elem? (ns ++ empty_node ∷ []) i
      ≡ (if i == length ns then some empty_node else get_elem? ns i)
get_elem?-concat [] zero = refl
get_elem?-concat [] (suc i) = ground arith
get_elem?-concat (n ∷ ns) zero = ground arith
get_elem?-concat (n ∷ ns) (suc i) = ground (arith, get_elem?-concat ns i)

-- A step that makes a node adds one edge, to the node at the end.
pub child-made :
    (ns : SuffixTrie) (node : ℕ) (l : Text) (i : ℕ) (k : Text)
    → node < length ns
    → child (update (ns ++ empty_node ∷ []) node (add_child l (length ns))) i k
      ≡ (if node == i && text_eq l k then some (length ns) else child ns i k)
unfolding child child_of get_child
child-made ns node l i k h = ground (
  arith,
  get_elem?-update (ns ++ empty_node ∷ []) node (add_child l (length ns)) i,
  get_elem?-concat ns i,
  get_elem?-above ns i,
  get_elem?-below ns i,
)

pub terminal-made :
    (ns : SuffixTrie) (node : ℕ) (l : Text) (i : ℕ)
    → is_terminal (update (ns ++ empty_node ∷ []) node (add_child l (length ns))) i
      ≡ is_terminal ns i
unfolding is_terminal terminal_of
terminal-made ns node l i = ground (
  arith,
  get_elem?-update (ns ++ empty_node ∷ []) node (add_child l (length ns)) i,
  get_elem?-concat ns i,
  get_elem?-above ns i,
)

pub child_above : (ns : SuffixTrie) (i : ℕ) (k : Text) → length ns ≤ i → child ns i k ≡ none
unfolding child child_of
child_above ns i k h = rw (get_elem?-above ns i h)

pub terminal_above : (ns : SuffixTrie) (i : ℕ) → length ns ≤ i → is_terminal ns i ≡ false
unfolding is_terminal terminal_of
terminal_above ns i h = rw (get_elem?-above ns i h)

pub record Extends (ns ns' : SuffixTrie) : Type 0 where
  pub grows : length ns ≤ length ns'
  pub keeps : (n : ℕ) (l : Text) (i : ℕ) → child ns n l ≡ some i → child ns' n l ≡ some i
  pub old_edges :
      (n : ℕ) (l : Text) (i : ℕ) → child ns' n l ≡ some i → i < length ns → child ns n l ≡ some i
  pub terminals : (i : ℕ) → is_terminal ns' i ≡ is_terminal ns i

-- `path_to i` is the one path to node `i`, the deepest label first.
pub record HasPaths (path_to : ℕ → List Text) (ns : SuffixTrie) : Type 0 where
  pub to_root : path_to 0 ≡ []
  pub has_root : 0 < length ns
  pub bounded : (n : ℕ) (l : Text) (i : ℕ) → child ns n l ≡ some i → i < length ns
  pub to_child : (n : ℕ) (l : Text) (i : ℕ) → child ns n l ≡ some i → path_to i ≡ l ∷ path_to n

pub Extends-refl : (ns : SuffixTrie) → Extends ns ns
Extends-refl ns = record {
  grows = omega arith;
  keeps = λ n l i e. e;
  old_edges = λ n l i e h. e;
  terminals = λ i. refl;
}

pub Extends-trans : {a b c : SuffixTrie} → Extends a b → Extends b c → Extends a c
Extends-trans x y = record {
  grows = omega (arith, x.grows, y.grows);
  keeps = λ n l i e. y.keeps n l i (x.keeps n l i e);
  old_edges = λ n l i e h. x.old_edges n l i (y.old_edges n l i e (omega (arith, x.grows))) h;
  terminals = λ i. y.terminals i ∙ x.terminals i;
}
