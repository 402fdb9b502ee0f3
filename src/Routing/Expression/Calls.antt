-- ===== src/Routing/Expression/Calls.antt =====
-- Reading one function, and a list of functions, back from its text.
use dae_rs.Prelude.{
  ℕ, ◌≡◌, refl, ap, ap₂, ◌∙◌, Bool, true, false, List, [], ◌∷◌, ◌++◌, Option, none, some, map, ◌==◌,
  if◌then◌else◌, arith, append_assoc,
}
use dae_rs.Text.{Text, text, is_empty, trim, strip_prefix, split_once, join}
use dae_rs.Routing.Expression.{
  Function, Parsed, ok, ◌>>=◌, parse_comma_separated, strip_last, parse_call, parse_function,
  parse_functions,
}
use dae_rs.Routing.Expression.Splits.{
  ends_in_snoc, pop_snoc, IsPart, AllParams, parse_comma_separated-join, AllConjuncts,
}
use dae_rs.Routing.Expression.Printing.{
  name_char, AllNameChars, IsFunction, AllFunctions, call_text, function_text, true≢false,
  trim-name, call_text-trim, text_for-IsConjunct, function_text-IsConjunct,
}

not_open : (c : ℕ) → name_char c ≡ true → (c == b'(') ≡ false
unfolding name_char
not_open c h = ground arith

not_bang : (c : ℕ) → name_char c ≡ true → (b'!' == c) ≡ false
unfolding name_char
not_bang c h = ground arith

split_once-name :
    (n rest : Text)
    → AllNameChars n
    → ◌≡◌ {A = Option (Text × Text)} (split_once b'(' (n ++ b'(' ∷ rest)) (some (n, rest))
unfolding split_once
split_once-name [] rest h = refl
split_once-name (c ∷ cs) rest h = rw (not_open c h.0, split_once-name cs rest h.1)

parse_call_parts :
    (b : Bool) (s n behind inner : Text)
    → ◌≡◌ {A = Option (Text × Text)} (split_once b'(' s) (some (n, behind))
    → strip_last b')' behind ≡ some inner
    → parse_call b s
      ≡ ok (record {
        name = trim n;
        negated = b;
        raw_params = map trim (parse_comma_separated inner);
      })
unfolding parse_call
parse_call_parts b s n behind inner e k = rw (e, k, parse_call)

strip_last_snoc : (s : Text) (c : ℕ) → strip_last c (s ++ c ∷ []) ≡ some s
unfolding strip_last
strip_last_snoc s c =
    let same : (c == c) ≡ true = ground arith in rw (ends_in_snoc c s c, same, pop_snoc s c)

map-trim : (ps : List Text) → AllParams ps → map trim ps ≡ ps
map-trim [] h = refl
map-trim (p ∷ ps) h = rw (h.0.0.0, map-trim ps h.1)

parse_call_lem :
    (b : Bool) (n : Text) (ps : List Text)
    → AllNameChars n
    → AllParams ps
    → parse_call b (call_text n ps) ≡ ok (record { name = n; negated = b; raw_params = ps })
unfolding call_text
parse_call_lem b n ps h k =
    let inner = join (b',' ∷ []) ps in
    let split =
      ap (split_once b'(') (append_assoc n (b'(' ∷ inner) (b')' ∷ []))
      ∙ split_once-name n (inner ++ b')' ∷ []) h in
    parse_call_parts b (call_text n ps) n (inner ++ b')' ∷ []) inner split
      (strip_last_snoc inner b')')
    ∙ rw (trim-name n h, parse_comma_separated-join ps k, map-trim ps k)

parse_function_bang :
    (s r : Text)
    → IsPart s
    → strip_prefix (text "!") s ≡ some r
    → trim r ≡ r
    → parse_function s ≡ parse_call true r
unfolding parse_function
parse_function_bang s r h e k = rw (h.0, h.1, e, k, parse_function)

parse_function_plain :
    (s : Text) → IsPart s → strip_prefix (text "!") s ≡ none → parse_function s ≡ parse_call false s
unfolding parse_function
parse_function_plain s h e = rw (h.0, h.1, e, parse_function) (ap (parse_call false) h.0)

strip_bang : (s : Text) → strip_prefix (text "!") (b'!' ∷ s) ≡ some s
unfolding strip_prefix
strip_bang s = refl

strip_other : (c : ℕ) (s : Text) → (b'!' == c) ≡ false → strip_prefix (text "!") (c ∷ s) ≡ none
unfolding strip_prefix
strip_other c s h = rw h

parse_text_for :
    (b : Bool) (n : Text) (ps : List Text)
    → is_empty n ≡ false
    → AllNameChars n
    → AllParams ps
    → parse_function (if b then b'!' ∷ call_text n ps else call_text n ps)
      ≡ ok (record { name = n; negated = b; raw_params = ps })
unfolding is_empty
parse_text_for true n ps e h k =
    parse_function_bang (b'!' ∷ call_text n ps) (call_text n ps)
      (text_for-IsConjunct true n ps h k).0 (strip_bang (call_text n ps)) (call_text-trim n ps h)
    ∙ parse_call_lem true n ps h k
parse_text_for false [] ps e h k = absurd (true≢false e)
parse_text_for false (c ∷ cs) ps e h k =
    parse_function_plain (call_text (c ∷ cs) ps) (text_for-IsConjunct false (c ∷ cs) ps h k).0 (
      unfold call_text in
      strip_other c ((cs ++ b'(' ∷ join (b',' ∷ []) ps) ++ b')' ∷ []) (not_bang c h.0))
    ∙ parse_call_lem false (c ∷ cs) ps h k

parse-function_text : (f : Function) → IsFunction f → parse_function (function_text f) ≡ ok f
unfolding function_text
parse-function_text f h = parse_text_for f.negated f.name f.raw_params h.0 h.1 h.2

pub texts-AllConjuncts :
    (fs : List Function) → AllFunctions fs → AllConjuncts (map function_text fs)
texts-AllConjuncts [] h = tt
texts-AllConjuncts (f ∷ fs) h = (function_text-IsConjunct f h.0, texts-AllConjuncts fs h.1)

parse_functions_cons :
    (s : Text) (ss : List Text) (f : Function) (fs : List Function)
    → IsPart s
    → parse_function s ≡ ok f
    → parse_functions ss ≡ ok fs
    → parse_functions (s ∷ ss) ≡ ok (f ∷ fs)
unfolding parse_functions
parse_functions_cons s ss f fs h e k =
    let full : is_empty (trim s) ≡ false = ap is_empty h.0 ∙ h.1 in
    rw full (
      ap₂ (λ (a : Parsed Function) (b : Parsed (List Function)). a >>= λ f. b >>= λ fs. ok (f ∷ fs))
        (ap parse_function h.0 ∙ e) k)

pub parse_functions-map :
    (fs : List Function) → AllFunctions fs → parse_functions (map function_text fs) ≡ ok fs
parse_functions-map [] h = unfold parse_functions in refl
parse_functions-map (f ∷ fs) h =
    parse_functions_cons (function_text f) (map function_text fs) f fs
      (function_text-IsConjunct f h.0).0 (parse-function_text f h.0) (parse_functions-map fs h.1)
