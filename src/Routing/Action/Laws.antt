-- ===== src/Routing/Action/Laws.antt =====
-- Actions are read back from their text, and marks are 32 bits wide.
use dae_rs.Prelude.{
  ℕ, ◌^◌, ◌<◌, ◌≡◌, refl, ap, ◌∙◌, Bool, true, false, List, [], ◌∷◌, ◌++◌, Option, none, some,
  if◌then◌else◌, arith, Option-cases, inl, inr,
}
use dae_rs.Text.{Text, text, text_eq, is_empty, is_whitespace, trim, strip_prefix, join}
use dae_rs.Routing.Expression.{
  Outbound, Parsed, ok, err, empty_outbound, invalid_mark, ◌>>=◌, parse_comma_separated,
}
use dae_rs.Routing.Expression.Splits.{
  ends_in_snoc, pop_snoc, balanced, IsParam, AllParams, parse_comma_separated-join,
}
use dae_rs.Routing.Expression.RoundTrip.{close_no_space}
use dae_rs.Routing.Expression.Printing.{trim_end_by_snoc}
use dae_rs.Text.Numbers.{from_str_radix-lt}
use dae_rs.Routing.Action.{
  or_hex, or_invalid, read_mark, parse_mark_value, params_loop, new, named, parse_proxy_params,
  parse_action,
}

-- `must`, if it is set.
abbrev pub must_option : Bool → List Text
must_option true = text "must" ∷ []
must_option false = []

-- `proxy(name,mark=..,must)`
unfoldable pub action_text : Text → Text → Bool → Text
unfolding join
action_text name mark must =
    (text "proxy(" ++ join (b',' ∷ []) (name ∷ (text "mark=" ++ mark) ∷ must_option must))
    ++ b')' ∷ []

abbrev pub IsGroupName : Text → Type 0
IsGroupName n =
    IsParam n × (text_eq n (text "must") ≡ false) × (strip_prefix (text "mark=") n ≡ none)

must-IsParam : IsParam (text "must")
unfolding trim balanced is_empty
must-IsParam = ((refl, refl), refl)

options-AllParams :
    (name mark : Text) (must : Bool)
    → IsParam name
    → IsParam (text "mark=" ++ mark)
    → AllParams (name ∷ (text "mark=" ++ mark) ∷ must_option must)
options-AllParams name mark true h k = (h, (k, (must-IsParam, tt)))
options-AllParams name mark false h k = (h, (k, tt))

-- The three kinds of parameters, already trimmed.
params_loop_name :
    (p : Text) (ps : List Text)
    → trim p ≡ p
    → text_eq p (text "must") ≡ false
    → strip_prefix (text "mark=") p ≡ none
    → params_loop (p ∷ ps) (new []) ≡ params_loop ps (new p)
unfolding params_loop is_empty
params_loop_name p ps t h k =
    let other = ap (λ s. text_eq s (text "must")) t ∙ h in
    let unmarked = ap (strip_prefix (text "mark=")) t ∙ k in
    rw (other, unmarked, params_loop) (ap (λ s. params_loop ps (new s)) t)

params_loop_mark :
    (p m : Text) (ps : List Text) (o : Outbound) (v : ℕ)
    → trim p ≡ p
    → text_eq p (text "must") ≡ false
    → strip_prefix (text "mark=") p ≡ some m
    → parse_mark_value m ≡ ok v
    → params_loop (p ∷ ps) o ≡ params_loop ps (record o { mark = v })
unfolding params_loop
params_loop_mark p m ps o v t h k e =
    let other = ap (λ s. text_eq s (text "must")) t ∙ h in
    let marked = ap (strip_prefix (text "mark=")) t ∙ k in rw (other, marked, params_loop, e)

params_loop_must :
    (b : Bool) (name : Text) (v : ℕ)
    → params_loop (must_option b) (record { name = name; mark = v; must = false })
      ≡ ok (record { name = name; mark = v; must = b })
unfolding params_loop
params_loop_must true name v = refl
params_loop_must false name v = refl

mark_other : (m : Text) → text_eq (text "mark=" ++ m) (text "must") ≡ false
unfolding text_eq
mark_other m = refl

mark_strip : (m : Text) → strip_prefix (text "mark=") (text "mark=" ++ m) ≡ some m
unfolding strip_prefix
mark_strip m = refl

params_loop-options :
    (name mark : Text) (v : ℕ) (must : Bool)
    → IsGroupName name
    → IsParam (text "mark=" ++ mark)
    → parse_mark_value mark ≡ ok v
    → params_loop (name ∷ (text "mark=" ++ mark) ∷ must_option must) (new [])
      ≡ ok (record { name = name; mark = v; must = must })
params_loop-options name mark v must h k e =
    params_loop_name name ((text "mark=" ++ mark) ∷ must_option must) h.0.0.0 h.1 h.2
    ∙ params_loop_mark (text "mark=" ++ mark) mark (must_option must) (new name) v k.0.0
        (mark_other mark) (mark_strip mark) e
    ∙ params_loop_must must name v

parse_proxy_params_lem :
    (inner p : Text) (ps : List Text) (o : Outbound)
    → parse_comma_separated inner ≡ p ∷ ps
    → params_loop (p ∷ ps) (new []) ≡ ok o
    → is_empty o.name ≡ false
    → parse_proxy_params inner ≡ ok o
unfolding parse_proxy_params
parse_proxy_params_lem inner p ps o e k h =
    ap
      (λ (parts : List Text).
        if is_empty parts then err empty_outbound else params_loop parts (new []) >>= named)
      e
    ∙ (unfold is_empty in ap (λ (r : Parsed Outbound). r >>= named) k)
    ∙ rw h

parse_action_lem :
    (inner : Text) → parse_action (text "proxy(" ++ (inner ++ b')' ∷ [])) ≡ parse_proxy_params inner
unfolding parse_action
parse_action_lem inner = rw (
  trim_end_by_snoc is_whitespace inner b')' close_no_space,
  ends_in_snoc b')' inner b')',
  pop_snoc inner b')',
)

-- An action `proxy(name,mark=..)` or `proxy(name,mark=..,must)` is read back: the name is a parameter
-- (not empty, with no space at its ends, balanced parentheses, and no comma outside of parentheses)
-- other than `must`, does not begin with `mark=`, and the mark's text is a parameter with a value.
pub parse_action-action_text :
    (name mark : Text) (v : ℕ) (must : Bool)
    → IsGroupName name
    → IsParam (text "mark=" ++ mark)
    → parse_mark_value mark ≡ ok v
    → parse_action (action_text name mark must) ≡ ok (record { name = name; mark = v; must = must })
unfolding action_text
parse_action-action_text name mark v must h k e =
    let parts = name ∷ (text "mark=" ++ mark) ∷ must_option must in
    let inner = join (b',' ∷ []) parts in
    parse_action_lem inner
    ∙ parse_proxy_params_lem inner name ((text "mark=" ++ mark) ∷ must_option must) _
        (parse_comma_separated-join parts (options-AllParams name mark must h.0 k))
        (params_loop-options name mark v must h k e) h.0.0.1

or_invalid_ok : (o : Option ℕ) (v : ℕ) → or_invalid o ≡ ok v → o ≡ some v
or_invalid_ok none v e = absurd (err≢ok e)
  where
    err≢ok : ◌≡◌ {A = Parsed ℕ} (err invalid_mark) (ok v) → ⊥
    err≢ok e = cc
or_invalid_ok (some w) v e = cc

read_mark-lt : (t : Text) (v : ℕ) → read_mark t ≡ some v → v < 2 ^ 32
unfolding read_mark
read_mark-lt t v e =
    elim (Option-cases (or_hex (strip_prefix (text "0x") t) (strip_prefix (text "0X") t))) [
      | inl k ↦ from_str_radix-lt (2 ^ 32) 10 t v (omega arith) (rw k at e)
      | inr (hex, k) ↦ from_str_radix-lt (2 ^ 32) 16 hex v (omega arith) (rw k at e)
    ]

-- A mark that is read is 32 bits wide.
pub parse_mark_value-lt : (s : Text) (v : ℕ) → parse_mark_value s ≡ ok v → v < 2 ^ 32
unfolding parse_mark_value
parse_mark_value-lt s v e = read_mark-lt (trim s) v (or_invalid_ok (read_mark (trim s)) v e)
