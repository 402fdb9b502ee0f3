-- ===== src/Routing/Expression/Printing.antt =====
-- The text of a rule's functions: it stands by itself between two `&&`.
use dae_rs.Prelude.{
  ℕ, suc, ◌-◌, ◌≡◌, refl, ap, ◌∙◌, Bool, true, false, not, ◌&&◌, List, [], ◌∷◌, ◌++◌, map, ◌==◌,
  if◌then◌else◌, arith, append_assoc,
}
use dae_rs.Text.{Text, is_empty, is_whitespace, trim, trim_start_by, trim_end_by, join}
use dae_rs.Routing.Expression.{Function}
use dae_rs.Routing.Expression.Splits.{
  balanced, is_empty_snoc, ends_in_snoc, AllParams, IsConjunct, and_and,
}

-- A character of a function's name.
unfoldable pub name_char : ℕ → Bool
unfolding is_whitespace
name_char c =
    not (is_whitespace c)
    && not (c == b'(')
    && not (c == b')')
    && not (c == b'&')
    && not (c == b'!')

abbrev pub AllNameChars : Text → Type 0
AllNameChars [] = Unit
AllNameChars (c ∷ cs) = (name_char c ≡ true) × AllNameChars cs

abbrev pub IsFunction : Function → Type 0
IsFunction f = (is_empty f.name ≡ false) × AllNameChars f.name × AllParams f.raw_params

abbrev pub AllFunctions : List Function → Type 0
AllFunctions [] = Unit
AllFunctions (f ∷ fs) = IsFunction f × AllFunctions fs

-- `name(a,b)`
unfoldable pub call_text : Text → List Text → Text
unfolding join
call_text name params = (name ++ b'(' ∷ join (b',' ∷ []) params) ++ b')' ∷ []

-- `!name(a,b)`
unfoldable pub function_text : Function → Text
unfolding call_text
function_text f =
    if f.negated then b'!' ∷ call_text f.name f.raw_params else call_text f.name f.raw_params

and_false : (b : Bool) → (b && false) ≡ false
and_false true = refl
and_false false = refl

pub true≢false : true ≡ false → ⊥
true≢false e = ground arith

pub trim_end_by_snoc :
    (p : ℕ → Bool) (s : Text) (c : ℕ) → p c ≡ false → trim_end_by p (s ++ c ∷ []) ≡ s ++ c ∷ []
unfolding trim_end_by is_empty
trim_end_by_snoc p [] c h = rw h
trim_end_by_snoc p (x ∷ xs) c h =
    rw (trim_end_by_snoc p xs c h, is_empty_snoc xs c, and_false (p x))

-- A text that begins and ends with a character that is no space is trimmed.
trim_lem :
    (c : ℕ) (s : Text) (e : ℕ)
    → is_whitespace c ≡ false
    → is_whitespace e ≡ false
    → trim (c ∷ (s ++ e ∷ [])) ≡ c ∷ (s ++ e ∷ [])
unfolding trim trim_start_by
trim_lem c s e h k = rw h (trim_end_by_snoc is_whitespace (c ∷ s) e k)

pub no_space : (c : ℕ) → name_char c ≡ true → is_whitespace c ≡ false
unfolding name_char
no_space c h = ground arith

trim_start_by-name : (n : Text) → AllNameChars n → trim_start_by is_whitespace n ≡ n
unfolding trim_start_by
trim_start_by-name [] h = refl
trim_start_by-name (c ∷ cs) h = rw (no_space c h.0)

trim_end_by-name : (n : Text) → AllNameChars n → trim_end_by is_whitespace n ≡ n
unfolding trim_end_by
trim_end_by-name [] h = refl
trim_end_by-name (c ∷ cs) h = rw (no_space c h.0, trim_end_by-name cs h.1)

pub trim-name : (n : Text) → AllNameChars n → trim n ≡ n
unfolding trim
trim-name n h = rw (trim_start_by-name n h, trim_end_by-name n h)

balanced-name :
    (n : Text) (d : ℕ) (rest : Text)
    → AllNameChars n
    → balanced b'&' d (n ++ rest) ≡ balanced b'&' d rest
unfolding balanced name_char
balanced-name [] d rest h = refl
balanced-name (c ∷ cs) d rest h = ground (arith, balanced-name cs d rest h.1, h.0)

-- Within parentheses, a parameter changes no depth and separates nothing.
balanced-param :
    (p : Text) (d : ℕ) (rest : Text)
    → balanced b',' d p ≡ true
    → balanced b'&' (suc d) (p ++ rest) ≡ balanced b'&' 1 rest
unfolding balanced
balanced-param [] d rest h = ground arith
balanced-param (c ∷ cs) d rest h = ground (
  arith,
  balanced-param cs (suc d) rest,
  balanced-param cs (d - 1) rest,
  balanced-param cs d rest,
)

balanced-comma : (rest : Text) → balanced b'&' 1 (b',' ∷ rest) ≡ balanced b'&' 1 rest
unfolding balanced
balanced-comma rest = refl

balanced-params :
    (ps : List Text) (rest : Text)
    → AllParams ps
    → balanced b'&' 1 (join (b',' ∷ []) ps ++ rest) ≡ balanced b'&' 1 rest
unfolding join
balanced-params [] rest h = refl
balanced-params (p ∷ []) rest h = balanced-param p 0 rest h.0.1
balanced-params (p ∷ q ∷ qs) rest h =
    ap (balanced b'&' 1) (append_assoc p (b',' ∷ join (b',' ∷ []) (q ∷ qs)) rest)
    ∙ balanced-param p 0 (b',' ∷ join (b',' ∷ []) (q ∷ qs) ++ rest) h.0.1
    ∙ balanced-comma (join (b',' ∷ []) (q ∷ qs) ++ rest)
    ∙ balanced-params (q ∷ qs) rest h.1

balanced-open : (rest : Text) → balanced b'&' 0 (b'(' ∷ rest) ≡ balanced b'&' 1 rest
unfolding balanced
balanced-open rest = refl

balanced-close : balanced b'&' 1 (b')' ∷ []) ≡ true
unfolding balanced
balanced-close = refl

call_text-balanced :
    (n : Text) (ps : List Text)
    → AllNameChars n
    → AllParams ps
    → balanced b'&' 0 (call_text n ps) ≡ true
unfolding call_text
call_text-balanced n ps h k =
    let inner = join (b',' ∷ []) ps in
    ap (balanced b'&' 0) (append_assoc n (b'(' ∷ inner) (b')' ∷ []))
    ∙ balanced-name n 0 (b'(' ∷ inner ++ b')' ∷ []) h
    ∙ balanced-open (inner ++ b')' ∷ [])
    ∙ balanced-params ps (b')' ∷ []) k
    ∙ balanced-close

pub call_text-trim :
    (n : Text) (ps : List Text) → AllNameChars n → trim (call_text n ps) ≡ call_text n ps
unfolding call_text is_whitespace
call_text-trim [] ps h = trim_lem b'(' (join (b',' ∷ []) ps) b')' refl refl
call_text-trim (c ∷ cs) ps h =
    trim_lem c (cs ++ b'(' ∷ join (b',' ∷ []) ps) b')' (no_space c h.0) refl

bang-trim : (n : Text) (ps : List Text) → trim (b'!' ∷ call_text n ps) ≡ b'!' ∷ call_text n ps
unfolding call_text is_whitespace
bang-trim n ps = trim_lem b'!' (n ++ b'(' ∷ join (b',' ∷ []) ps) b')' refl refl

balanced-bang : (s : Text) → balanced b'&' 0 (b'!' ∷ s) ≡ balanced b'&' 0 s
unfolding balanced
balanced-bang s = refl

-- The text of a function stands by itself between two `&&`.
pub text_for-IsConjunct :
    (b : Bool) (n : Text) (ps : List Text)
    → AllNameChars n
    → AllParams ps
    → IsConjunct (if b then b'!' ∷ call_text n ps else call_text n ps)
unfolding call_text
text_for-IsConjunct true n ps h k = (
  (bang-trim n ps, unfold is_empty in refl),
  balanced-bang (call_text n ps) ∙ call_text-balanced n ps h k,
  ends_in_snoc b'&' (b'!' ∷ (n ++ b'(' ∷ join (b',' ∷ []) ps)) b')',
)
text_for-IsConjunct false n ps h k = (
  (call_text-trim n ps h, is_empty_snoc (n ++ b'(' ∷ join (b',' ∷ []) ps) b')'),
  call_text-balanced n ps h k,
  ends_in_snoc b'&' (n ++ b'(' ∷ join (b',' ∷ []) ps) b')',
)

pub function_text-IsConjunct : (f : Function) → IsFunction f → IsConjunct (function_text f)
unfolding function_text
function_text-IsConjunct f h = text_for-IsConjunct f.negated f.name f.raw_params h.1 h.2

-- `f && g && h`, without the spaces.
unfoldable pub match_text : List Function → Text
unfolding function_text join
match_text fs = join and_and (map function_text fs)
