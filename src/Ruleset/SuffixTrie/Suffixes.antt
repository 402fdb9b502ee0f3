-- ===== src/Ruleset/SuffixTrie/Suffixes.antt =====
-- The trie answers for exactly the names that end in an inserted value, at a label.
use mathlib.Core.List.{reverse, reverse-cons, reverse-reverse}
use dae_rs.Prelude.{
  ℕ, zero, suc, ◌≡◌, refl, sym, ap, ap₂, ◌∙◌, Bool, false, ◌||◌, List, [], ◌∷◌, ◌++◌, none, some,
  arith, append_assoc, append-nil, Option-cases, inl, inr,
}
use dae_rs.Text.Equality.{any, mem_text}
use dae_rs.Text.Dots.{after_dots}
use dae_rs.Text.{Text, split, split_pieces}
use dae_rs.Ruleset.SuffixTrie.{
  SuffixTrie, new, get_child, child, child_of, is_terminal, insert, contains_labels, contains,
}
use dae_rs.Ruleset.SuffixTrie.Steps.{child_below, walk}
use dae_rs.Ruleset.SuffixTrie.Words.{ends_at, accepts, IsTree, insert-IsTree, accepts-insert}

-- `insert` of each value, in order, into a trie.
unfoldable pub insert_all : SuffixTrie → List Text → SuffixTrie
insert_all ns [] = ns
insert_all ns (v ∷ vs) = insert_all (insert ns v) vs

accepts-insert_all :
    (ns : SuffixTrie) (vs : List Text) (q : Text)
    → IsTree ns
    → accepts (insert_all ns vs) (split b'.' q) ≡ (mem_text q vs || accepts ns (split b'.' q))
unfolding insert_all any
accepts-insert_all ns [] q t = refl
accepts-insert_all ns (v ∷ vs) q t =
    ground
      (arith, accepts-insert_all (insert ns v) vs q (insert-IsTree ns t v), accepts-insert ns t v q)

child-new : (n : ℕ) (l : Text) → child new n l ≡ none
unfolding child child_of get_child
child-new zero l = refl
child-new (suc n) l = refl

new-IsTree : IsTree new
new-IsTree = record {
  path_to = λ _. [];
  paths = record {
    to_root = refl;
    has_root = omega arith;
    bounded = λ n l i e. absurd (cc (child-new n l));
    to_child = λ n l i e. absurd (cc (child-new n l));
  };
}

walk-new : (l : Text) (p : List Text) → walk new (l ∷ p) ≡ none
unfolding walk child_below
walk-new l p = elim (Option-cases (walk new p)) [ inl e ↦ rw e | inr (i, e) ↦ rw e (child-new i l) ]

-- From the empty trie, the words are the inserted values.
accepts-new :
    (vs : List Text) (q : Text) → accepts (insert_all new vs) (split b'.' q) ≡ mem_text q vs
unfolding accepts ends_at split
accepts-new vs q = ground (
  arith,
  accepts-insert_all new vs q new-IsTree,
  walk-new (split_pieces b'.' q).0 (split_pieces b'.' q).1,
)

-- Some path that extends `p` by labels of the list is accepted.
any_accepts : SuffixTrie → List Text → List Text → Bool
any_accepts ns p [] = false
any_accepts ns p (l ∷ ls) = accepts ns (l ∷ p) || any_accepts ns (l ∷ p) ls

any_accepts-none :
    (ns : SuffixTrie) (p ls : List Text) → walk ns p ≡ none → any_accepts ns p ls ≡ false
unfolding any_accepts accepts ends_at walk child_below
any_accepts-none ns p [] e = refl
any_accepts-none ns p (l ∷ ls) e = rw e (any_accepts-none ns (l ∷ p) ls (rw e))

walk_step :
    (ns : SuffixTrie) (p : List Text) (l : Text) (n : ℕ)
    → walk ns p ≡ some n
    → walk ns (l ∷ p) ≡ child ns n l
unfolding walk child_below
walk_step ns p l n e = rw e

contains_labels-any :
    (ns : SuffixTrie) (p ls : List Text) (n : ℕ)
    → walk ns p ≡ some n
    → contains_labels ns n ls ≡ any_accepts ns p ls
unfolding contains_labels any_accepts accepts ends_at
contains_labels-any ns p [] n e = refl
contains_labels-any ns p (l ∷ ls) n e = elim (Option-cases (child ns n l)) [
  | inl f ↦
      let missing : walk ns (l ∷ p) ≡ none = walk_step ns p l n e ∙ f in
      rw (f, missing, contains_labels) (sym (any_accepts-none ns (l ∷ p) ls missing))
  | inr (i, f) ↦
      let there : walk ns (l ∷ p) ≡ some i = walk_step ns p l n e ∙ f in
      rw (f, there, contains_labels)
        (ap (λ b. is_terminal ns i || b) (contains_labels-any ns (l ∷ p) ls i there))
]

any_accepts-concat :
    (ns : SuffixTrie) (p ls : List Text) (l : Text)
    → any_accepts ns p (ls ++ l ∷ []) ≡ (accepts ns (l ∷ (reverse ls ++ p)) || any_accepts ns p ls)
unfolding any_accepts
any_accepts-concat ns p [] l = refl
any_accepts-concat ns p (k ∷ ls) l =
    rw (any_accepts-concat ns (k ∷ p) ls l, reverse-cons k ls, append_assoc (reverse ls) (k ∷ []) p)
      (ground arith)

-- Each nonempty end of the list is tried, the whole first.
any_suffix : (List Text → Bool) → List Text → Bool
any_suffix f [] = false
any_suffix f (l ∷ ls) = f (l ∷ ls) || any_suffix f ls

any_accepts-reverse :
    (ns : SuffixTrie) (ls : List Text) → any_accepts ns [] (reverse ls) ≡ any_suffix (accepts ns) ls
unfolding any_suffix
any_accepts-reverse ns [] = unfold any_accepts in refl
any_accepts-reverse ns (l ∷ ls) =
    rw
      (
        reverse-cons l ls,
        any_accepts-concat ns [] (reverse ls) l,
        reverse-reverse ls,
        append-nil ls,
      )
      (ap (λ b. accepts ns (l ∷ ls) || b) (any_accepts-reverse ns ls))

-- The proper ends of the labels are the labels of what follows a dot.
any_suffix-pieces :
    (f : List Text → Bool) (q : Text)
    → any_suffix f (split_pieces b'.' q).1 ≡ any (λ r. f (split b'.' r)) (after_dots q)
unfolding any_suffix any after_dots split split_pieces
any_suffix-pieces f [] = refl
any_suffix-pieces f (c ∷ cs) = ground (arith, any_suffix-pieces f cs)

any-pointwise :
    (f g : Text → Bool) (rs : List Text) → ((r : Text) → f r ≡ g r) → any f rs ≡ any g rs
unfolding any
any-pointwise f g [] h = refl
any-pointwise f g (r ∷ rs) h = ap₂ ◌||◌ (h r) (any-pointwise f g rs h)

-- A trie built from values contains a name exactly if the name, or what follows one of its
-- dots, is one of the values.
pub contains-insert_all :
    (vs : List Text) (q : Text)
    → contains (insert_all new vs) q ≡ any (λ r. mem_text r vs) (q ∷ after_dots q)
unfolding contains any split
contains-insert_all vs q =
    contains_labels-any built [] (reverse (split b'.' q)) 0 (unfold walk in refl)
    ∙ any_accepts-reverse built (split b'.' q)
    ∙ (unfold any_suffix in
        ap₂ ◌||◌ (accepts-new vs q) (
          any_suffix-pieces (accepts built) q
          ∙ any-pointwise (λ r. accepts built (split b'.' r)) (λ r. mem_text r vs) (after_dots q)
              (accepts-new vs)))
  where
    built : SuffixTrie
    built = insert_all new vs
