-- ===== src/Routing/Expression/RoundTrip.antt =====
-- Reading the functions of a rule back from its text.
use dae_rs.Prelude.{
  ℕ, ◌≡◌, refl, sym, ap, ◌∙◌, Bool, true, false, List, [], ◌∷◌, ◌++◌, map, if◌then◌else◌,
  append_assoc, Bool-cases, inl, inr, subst,
}
use dae_rs.Text.{
  Text, text, text_eq, is_empty, is_whitespace, trim, trim_start_by, trim_end_by, join,
}
use dae_rs.Text.Equality.{text_eq_iff}
use dae_rs.Routing.Expression.{
  Function, ok, ends_in, parse_functions, parse_match, split_and_respecting_parens,
}
use dae_rs.Routing.Expression.Splits.{is_empty_snoc, ends_in_snoc, and_and, split_and-join}
use dae_rs.Routing.Expression.Printing.{
  AllNameChars, IsFunction, AllFunctions, call_text, function_text, true≢false, trim_end_by_snoc,
  no_space, match_text,
}
use dae_rs.Routing.Expression.Calls.{texts-AllConjuncts, parse_functions-map}

-- The whole text begins and ends with characters that are no spaces.
call_text_last : (n : Text) (ps : List Text) → (s : Text) × (call_text n ps ≡ s ++ b')' ∷ [])
unfolding call_text
call_text_last n ps = (n ++ b'(' ∷ join (b',' ∷ []) ps, refl)

function_text_last : (f : Function) → (s : Text) × (function_text f ≡ s ++ b')' ∷ [])
unfolding function_text
function_text_last f = last_for f.negated (call_text_last f.name f.raw_params)
  where
    last_for :
        (b : Bool)
        → (s : Text) × (call_text f.name f.raw_params ≡ s ++ b')' ∷ [])
        → (s : Text) × ((if b
              then b'!' ∷ call_text f.name f.raw_params
              else call_text f.name f.raw_params)
            ≡ s ++ b')' ∷ [])
    last_for true (s, e) = (b'!' ∷ s, ap (λ t. b'!' ∷ t) e)
    last_for false (s, e) = (s, e)

match_text_last :
    (f : Function) (fs : List Function) → (s : Text) × (match_text (f ∷ fs) ≡ s ++ b')' ∷ [])
unfolding match_text
match_text_last f [] = function_text_last f
match_text_last f (g ∷ gs) =
    let (s, e) = match_text_last g gs in
    (
      function_text f ++ (and_and ++ s),
      ap (λ t. function_text f ++ (and_and ++ t)) e
          ∙ sym (append_assoc (function_text f) (and_and ++ s) (b')' ∷ [])),
    )

-- A text that begins with no space.
abbrev pub Begins : Text → Type 0
Begins t = (c : ℕ) × (s : Text) × (t ≡ c ∷ s) × (is_whitespace c ≡ false)

text_for_first :
    (b : Bool) (n : Text) (ps : List Text)
    → is_empty n ≡ false
    → AllNameChars n
    → Begins (if b then b'!' ∷ call_text n ps else call_text n ps)
unfolding call_text is_empty is_whitespace
text_for_first true n ps e h = (b'!', call_text n ps, refl, refl)
text_for_first false [] ps e h = absurd (true≢false e)
text_for_first false (c ∷ cs) ps e h =
    (c, (cs ++ b'(' ∷ join (b',' ∷ []) ps) ++ b')' ∷ [], refl, no_space c h.0)

match_text_first : (f : Function) (fs : List Function) → IsFunction f → Begins (match_text (f ∷ fs))
unfolding match_text function_text
match_text_first f [] h = text_for_first f.negated f.name f.raw_params h.0 h.1
match_text_first f (g ∷ gs) h =
    let (c, s, e, k) = text_for_first f.negated f.name f.raw_params h.0 h.1 in
    let rest = and_and ++ match_text (g ∷ gs) in (c, s ++ rest, ap (λ t. t ++ rest) e, k)

trim-ends : (t s : Text) (e : ℕ) → Begins t → t ≡ s ++ e ∷ [] → is_whitespace e ≡ false → trim t ≡ t
unfolding trim trim_start_by
trim-ends t s e (c, r, begins, k) ends h =
    let start : trim_start_by is_whitespace t ≡ t =
      subst (λ x. trim_start_by is_whitespace x ≡ x) (sym begins) (rw k) in
    ap (trim_end_by is_whitespace) (start ∙ ends) ∙ trim_end_by_snoc is_whitespace s e h ∙ sym ends

pub close_no_space : is_whitespace b')' ≡ false
unfolding is_whitespace
close_no_space = refl

fallback_last : ends_in b')' (text "fallback") ≡ false
unfolding ends_in
fallback_last = refl

not_fallback : (t s : Text) → t ≡ s ++ b')' ∷ [] → text_eq t (text "fallback") ≡ false
not_fallback t s e = elim (Bool-cases (text_eq t (text "fallback"))) [
  | inr differ ↦ differ
  | inl same ↦
      let is_fallback = (text_eq_iff t (text "fallback")).0 same in
      absurd (
        true≢false (
          sym (ends_in_snoc b')' s b')') ∙ ap (ends_in b')') (sym e ∙ is_fallback) ∙ fallback_last))
]

parse_match_some :
    (t : Text)
    → trim t ≡ t
    → is_empty t ≡ false
    → text_eq t (text "fallback") ≡ false
    → parse_match t ≡ parse_functions (split_and_respecting_parens t)
unfolding parse_match
parse_match_some t e k h =
    let full = ap is_empty e ∙ k in
    let other = ap (λ s. text_eq s (text "fallback")) e ∙ h in
    rw (full, other) (ap (λ s. parse_functions (split_and_respecting_parens s)) e)

-- The functions of a rule are read back from their text, `f(a,b)&&!g(c)`: the names are not empty and
-- have no space, parenthesis, `&` or `!`; the parameters are not empty, with no space at their ends,
-- balanced parentheses, and no comma outside of parentheses.
pub parse_match-match_text :
    (fs : List Function) → AllFunctions fs → parse_match (match_text fs) ≡ ok fs
unfolding match_text
parse_match-match_text [] h = unfold parse_match in refl
parse_match-match_text (f ∷ fs) h =
    let (s, ends) = match_text_last f fs in
    parse_match_some (match_text (f ∷ fs))
      (trim-ends (match_text (f ∷ fs)) s b')' (match_text_first f fs h.0) ends close_no_space)
      (ap is_empty ends ∙ is_empty_snoc s b')') (not_fallback (match_text (f ∷ fs)) s ends)
    ∙ ap parse_functions
        (split_and-join (map function_text (f ∷ fs)) (texts-AllConjuncts (f ∷ fs) h))
    ∙ parse_functions-map (f ∷ fs) h
