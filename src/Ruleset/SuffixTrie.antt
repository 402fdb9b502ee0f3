-- ===== src/Ruleset/SuffixTrie.antt =====
-- control/src/ruleset/compiled.rs: `SuffixTrie`, an arena of nodes that refer to one another by
-- index. A node's `HashMap` of children is an association list; labels are compared as texts.
use dae_rs.Prelude.{
  ℕ, zero, suc, Bool, true, false, ◌||◌, List, [], ◌∷◌, ◌++◌, Option, none, some, if◌then◌else◌,
  length, get_elem?, set,
}
use mathlib.Core.List.{reverse}
use dae_rs.Text.{Text, text_eq, split}
pub mod Arena
pub mod Steps
pub mod Words
pub mod Suffixes

pub record SuffixTrieNode : Type 0 where
  pub children : List (Text × ℕ)
  pub terminal : Bool

abbrev pub empty_node : SuffixTrieNode
empty_node = record { children = []; terminal = false }

abbrev pub SuffixTrie : Type 0
SuffixTrie = List SuffixTrieNode

-- `children.get(label)`, and `children.insert(label, idx)` where the label is missing.
unfoldable pub get_child : List (Text × ℕ) → Text → Option ℕ
get_child [] l = none
get_child ((k, i) ∷ cs) l = if text_eq k l then some i else get_child cs l

abbrev pub add_child : Text → ℕ → SuffixTrieNode → SuffixTrieNode
add_child l i n = record n { children = (l, i) ∷ n.children }

abbrev pub set_terminal : SuffixTrieNode → SuffixTrieNode
set_terminal n = record n { terminal = true }

-- `self.nodes[node]` is given another value; the nodes that `insert` writes to are there.
pub update : SuffixTrie → ℕ → (SuffixTrieNode → SuffixTrieNode) → SuffixTrie
update [] i f = []
update (n ∷ ns) zero f = f n ∷ ns
update (n ∷ ns) (suc i) f = n ∷ update ns i f

-- `self.nodes[node].children.get(label)` and `self.nodes[node].terminal`.
unfoldable pub child_of : Option SuffixTrieNode → Text → Option ℕ
child_of none l = none
child_of (some n) l = get_child n.children l

unfoldable pub child : SuffixTrie → ℕ → Text → Option ℕ
child ns i l = child_of (get_elem? ns i) l

pub terminal_of : Option SuffixTrieNode → Bool
terminal_of none = false
terminal_of (some n) = n.terminal

pub is_terminal : SuffixTrie → ℕ → Bool
is_terminal ns i = terminal_of (get_elem? ns i)

abbrev pub new : SuffixTrie
new = empty_node ∷ []

-- One round of the loop of `insert`: the node for the label below `node`, made if it is missing.
pub step_for : Option ℕ → SuffixTrie → ℕ → Text → SuffixTrie × ℕ
step_for (some i) ns node l = (ns, i)
step_for none ns node l = (update (ns ++ empty_node ∷ []) node (add_child l (length ns)), length ns)

pub step : SuffixTrie → ℕ → Text → SuffixTrie × ℕ
step ns node l = step_for (child ns node l) ns node l

pub insert_labels : SuffixTrie → ℕ → List Text → SuffixTrie × ℕ
insert_labels ns node [] = (ns, node)
insert_labels ns node (l ∷ ls) = let r = step ns node l in insert_labels r.0 r.1 ls

unfoldable pub insert : SuffixTrie → Text → SuffixTrie
unfolding insert_labels step step_for update child child_of get_child split
insert ns value =
    let r = insert_labels ns 0 (reverse (split b'.' value)) in update r.0 r.1 set_terminal

-- The loop of `contains`; a missing child answers `false`.
pub contains_labels : SuffixTrie → ℕ → List Text → Bool
contains_labels ns node [] = false
contains_labels ns node (l ∷ ls) = elim (child ns node l) [
  | none ↦ false
  | some i ↦ is_terminal ns i || contains_labels ns i ls
]

unfoldable pub contains : SuffixTrie → Text → Bool
unfolding contains_labels child child_of get_child is_terminal terminal_of split
contains ns qname = contains_labels ns 0 (reverse (split b'.' qname))
