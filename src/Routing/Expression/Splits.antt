-- ===== src/Routing/Expression/Splits.antt =====
-- The two splitting loops on texts whose parentheses are balanced.
use dae_rs.Prelude.{
  ℕ, suc, ◌-◌, ◌≡◌, refl, sym, ap, ◌∙◌, Bool, true, false, ◌&&◌, List, [], ◌∷◌, ◌++◌, ltb, ◌==◌,
  if◌then◌else◌, arith, append_assoc, append-nil,
}
use dae_rs.Text.{Text, is_empty, trim, join}
use dae_rs.Routing.Expression.{
  push_part, comma_loop, parse_comma_separated, ends_in, pop, and_loop, split_and_respecting_parens,
}

-- Read from the depth `d`, the text closes what it opens and no more, ends at depth 0, and has no
-- `sep` at depth 0.
unfoldable pub balanced : ℕ → ℕ → Text → Bool
balanced sep d [] = d == 0
balanced sep d (c ∷ cs) =
    let deeper = balanced sep (suc d) cs in
    let higher = balanced sep (d - 1) cs in
    let same = balanced sep d cs in
    if c == b'('
    then deeper
    else if c == b')'
    then ltb 0 d && higher
    else if c == sep && d == 0
    then false
    else same

comma_loop-balanced :
    (p : Text) (d : ℕ) (rest current : Text) (parts : List Text)
    → balanced b',' d p ≡ true
    → comma_loop (p ++ rest) d current parts ≡ comma_loop rest 0 (current ++ p) parts
unfolding comma_loop balanced
comma_loop-balanced [] d rest current parts h = ground (arith, append-nil current)
comma_loop-balanced (c ∷ cs) d rest current parts h = ground (
  arith,
  comma_loop-balanced cs (suc d) rest (current ++ c ∷ []) parts,
  comma_loop-balanced cs (d - 1) rest (current ++ c ∷ []) parts,
  comma_loop-balanced cs d rest (current ++ c ∷ []) parts,
  append_assoc current (c ∷ []) cs,
)

and_loop-balanced :
    (p : Text) (d : ℕ) (rest current : Text) (parts : List Text)
    → balanced b'&' d p ≡ true
    → and_loop (p ++ rest) d current parts ≡ and_loop rest 0 (current ++ p) parts
unfolding and_loop balanced
and_loop-balanced [] d rest current parts h = ground (arith, append-nil current)
and_loop-balanced (c ∷ cs) d rest current parts h = ground (
  arith,
  and_loop-balanced cs (suc d) rest (current ++ c ∷ []) parts,
  and_loop-balanced cs (d - 1) rest (current ++ c ∷ []) parts,
  and_loop-balanced cs d rest (current ++ c ∷ []) parts,
  append_assoc current (c ∷ []) cs,
)

pub is_empty_snoc : (s : Text) (c : ℕ) → is_empty (s ++ c ∷ []) ≡ false
unfolding is_empty
is_empty_snoc [] c = refl
is_empty_snoc (x ∷ xs) c = refl

pub ends_in_snoc : (d : ℕ) (s : Text) (c : ℕ) → ends_in d (s ++ c ∷ []) ≡ (c == d)
unfolding ends_in is_empty
ends_in_snoc d [] c = refl
ends_in_snoc d (x ∷ xs) c = rw (is_empty_snoc xs c, ends_in_snoc d xs c)

pub pop_snoc : (s : Text) (c : ℕ) → pop (s ++ c ∷ []) ≡ s
unfolding pop is_empty
pop_snoc [] c = refl
pop_snoc (x ∷ xs) c = rw (is_empty_snoc xs c, pop_snoc xs c)

-- A part that stands by itself: not empty, with no space at its ends.
abbrev pub IsPart : Text → Type 0
IsPart s = (trim s ≡ s) × (is_empty s ≡ false)

push_part-IsPart : (s : Text) (parts : List Text) → IsPart s → push_part s parts ≡ parts ++ s ∷ []
unfolding push_part
push_part-IsPart s parts h = rw (h.0, h.1)

-- A parameter of a function.
abbrev pub IsParam : Text → Type 0
IsParam p = IsPart p × (balanced b',' 0 p ≡ true)

abbrev pub AllParams : List Text → Type 0
AllParams [] = Unit
AllParams (p ∷ ps) = IsParam p × AllParams ps

comma_loop-join :
    (p : Text) (ps parts : List Text)
    → AllParams (p ∷ ps)
    → comma_loop (join (b',' ∷ []) (p ∷ ps)) 0 [] parts ≡ parts ++ p ∷ ps
unfolding join comma_loop
comma_loop-join p [] parts h =
    sym (ap (λ s. comma_loop s 0 [] parts) (append-nil p))
    ∙ comma_loop-balanced p 0 [] [] parts h.0.1
    ∙ push_part-IsPart p parts h.0.0
comma_loop-join p (q ∷ qs) parts h =
    comma_loop-balanced p 0 (b',' ∷ join (b',' ∷ []) (q ∷ qs)) [] parts h.0.1
    ∙ ap (comma_loop (join (b',' ∷ []) (q ∷ qs)) 0 []) (push_part-IsPart p parts h.0.0)
    ∙ comma_loop-join q qs (parts ++ p ∷ []) h.1
    ∙ append_assoc parts (p ∷ []) (q ∷ qs)

-- Parameters that are not empty, have no space at their ends, balanced parentheses and no comma outside
-- of parentheses are read back from the list that joins them by commas.
pub parse_comma_separated-join :
    (ps : List Text) → AllParams ps → parse_comma_separated (join (b',' ∷ []) ps) ≡ ps
unfolding parse_comma_separated join
parse_comma_separated-join [] h = unfold comma_loop in unfold push_part in refl
parse_comma_separated-join (p ∷ ps) h = comma_loop-join p ps [] h

-- A function's text between two `&&`.
abbrev pub IsConjunct : Text → Type 0
IsConjunct s = IsPart s × (balanced b'&' 0 s ≡ true) × (ends_in b'&' s ≡ false)

abbrev pub AllConjuncts : List Text → Type 0
AllConjuncts [] = Unit
AllConjuncts (s ∷ ss) = IsConjunct s × AllConjuncts ss

abbrev pub and_and : Text
and_and = b'&' ∷ b'&' ∷ []

and_loop-separator :
    (s rest : Text) (parts : List Text)
    → ends_in b'&' s ≡ false
    → and_loop (b'&' ∷ b'&' ∷ rest) 0 s parts ≡ and_loop rest 0 [] (push_part s parts)
unfolding and_loop
and_loop-separator s rest parts h = rw (h, ends_in_snoc b'&' s b'&', pop_snoc s b'&')

and_loop-join :
    (s : Text) (ss parts : List Text)
    → AllConjuncts (s ∷ ss)
    → and_loop (join and_and (s ∷ ss)) 0 [] parts ≡ parts ++ s ∷ ss
unfolding join and_loop
and_loop-join s [] parts h =
    sym (ap (λ t. and_loop t 0 [] parts) (append-nil s))
    ∙ and_loop-balanced s 0 [] [] parts h.0.1
    ∙ push_part-IsPart s parts h.0.0
and_loop-join s (t ∷ ts) parts h =
    and_loop-balanced s 0 (b'&' ∷ b'&' ∷ join and_and (t ∷ ts)) [] parts h.0.1
    ∙ and_loop-separator s (join and_and (t ∷ ts)) parts h.0.2
    ∙ ap (and_loop (join and_and (t ∷ ts)) 0 []) (push_part-IsPart s parts h.0.0)
    ∙ and_loop-join t ts (parts ++ s ∷ []) h.1
    ∙ append_assoc parts (s ∷ []) (t ∷ ts)

pub split_and-join :
    (ss : List Text) → AllConjuncts ss → split_and_respecting_parens (join and_and ss) ≡ ss
unfolding split_and_respecting_parens join
split_and-join [] h = unfold and_loop in unfold push_part in refl
split_and-join (s ∷ ss) h = and_loop-join s ss [] h
