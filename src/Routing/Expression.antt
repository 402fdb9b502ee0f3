-- ===== src/Routing/Expression.antt =====
-- control/src/routing/matcher.rs: the expressions of routing rules: `Function`, `Outbound`,
-- `parse_comma_separated`, `split_and_respecting_parens` and `parse_rule`.
use dae_rs.Prelude.{
  ℕ, zero, suc, ◌+◌, ◌-◌, ◌*◌, ◌^◌, Bool, true, false, ◌&&◌, ◌||◌, List, [], ◌∷◌, ◌++◌, Option,
  none, some, map, ltb, leb, ◌==◌, if◌then◌else◌,
}
use dae_rs.Text.{Text, text, text_eq, is_empty, trim, strip_prefix, split_once}
pub mod Splits
pub mod Printing
pub mod Calls
pub mod RoundTrip

pub record Function : Type 0 where
  pub name : Text
  pub negated : Bool
  pub raw_params : List Text

pub record Outbound : Type 0 where
  pub name : Text
  pub mark : ℕ
  pub must : Bool

pub record NormalizedRule : Type 0 where
  pub and_functions : List Function
  pub outbound : Outbound

pub data ParseError : Type 0 where
  empty_function no_open_paren no_close_paren : ParseError
  empty_outbound invalid_mark unexpected_parameter missing_name : ParseError
  invalid_number rule_set_missing invalid_cidr invalid_mac : ParseError
  unknown_function unknown_outbound capacity_exceeded index_panic : ParseError

pub data Parsed {ℓ} (A : Type ℓ) : Type ℓ where
  ok : A → Parsed A
  err : ParseError → Parsed A

infixl 5 ◌>>=◌
abbrev pub ◌>>=◌ {ℓ κ} : {A : Type ℓ} {B : Type κ} → Parsed A → (A → Parsed B) → Parsed B
ok a >>= f = f a
err e >>= f = err e

-- `if !trimmed.is_empty() { parts.push(trimmed); }`
unfoldable pub push_part : Text → List Text → List Text
unfolding is_empty trim
push_part current parts = if is_empty (trim current) then parts else parts ++ trim current ∷ []

-- The loop of `parse_comma_separated` over the rest of the input.
unfoldable pub comma_loop : Text → ℕ → Text → List Text → List Text
unfolding push_part
comma_loop [] depth current parts = push_part current parts
comma_loop (ch ∷ cs) depth current parts =
    let deeper = comma_loop cs (suc depth) (current ++ ch ∷ []) parts in
    let higher = comma_loop cs (depth - 1) (current ++ ch ∷ []) parts in
    let same = comma_loop cs depth (current ++ ch ∷ []) parts in
    let next = comma_loop cs depth [] (push_part current parts) in
    if ch == b'('
    then deeper
    else if ch == b')'
    then (if ltb 0 depth then higher else same)
    else if ch == b',' && depth == 0
    then next
    else same

unfoldable pub parse_comma_separated : Text → List Text
unfolding comma_loop
parse_comma_separated input = comma_loop input 0 [] []

-- `current.ends_with('&')` and `current.pop()`.
unfoldable pub ends_in : ℕ → Text → Bool
unfolding is_empty
ends_in d [] = false
ends_in d (c ∷ cs) = let rest = ends_in d cs in if is_empty cs then c == d else rest

unfoldable pub pop : Text → Text
unfolding is_empty
pop [] = []
pop (c ∷ cs) = let rest = pop cs in if is_empty cs then [] else c ∷ rest

-- The loop of `split_and_respecting_parens`.
unfoldable pub and_loop : Text → ℕ → Text → List Text → List Text
unfolding push_part ends_in pop
and_loop [] depth current parts = push_part current parts
and_loop (ch ∷ cs) depth current parts =
    let deeper = and_loop cs (suc depth) (current ++ ch ∷ []) parts in
    let higher = and_loop cs (depth - 1) (current ++ ch ∷ []) parts in
    let same = and_loop cs depth (current ++ ch ∷ []) parts in
    let next = and_loop cs depth [] (push_part (pop current) parts) in
    if ch == b'('
    then deeper
    else if ch == b')'
    then (if ltb 0 depth then higher else same)
    else if ch == b'&' && depth == 0
    then (if ends_in b'&' current then next else same)
    else same

unfoldable pub split_and_respecting_parens : Text → List Text
unfolding and_loop
split_and_respecting_parens input = and_loop input 0 [] []

-- `strip_suffix` of a character.
unfoldable pub strip_last : ℕ → Text → Option Text
unfolding ends_in pop
strip_last d s = if ends_in d s then some (pop s) else none

-- The name and the parameters, behind the `!`.
unfoldable pub parse_call : Bool → Text → Parsed Function
unfolding split_once strip_last parse_comma_separated trim
parse_call negated rest = elim (split_once b'(' rest) [
  | none ↦ err no_open_paren
  | some (before, behind) ↦ elim (strip_last b')' behind) [
    | none ↦ err no_close_paren
    | some inner ↦ ok (record {
      name = trim before;
      negated = negated;
      raw_params = map trim (parse_comma_separated inner);
    })
  ]
]

-- `Function::from_str`
unfoldable pub parse_function : Text → Parsed Function
unfolding trim is_empty strip_prefix parse_call
parse_function s =
    if is_empty (trim s) then err empty_function else elim (strip_prefix (text "!") (trim s)) [
      | some stripped ↦ parse_call true (trim stripped)
      | none ↦ parse_call false (trim s)
    ]

-- The loop of `parse_rule` over the parts.
unfoldable pub parse_functions : List Text → Parsed (List Function)
unfolding trim is_empty parse_function
parse_functions [] = ok []
parse_functions (p ∷ ps) =
    let rest = parse_functions ps in
    if is_empty (trim p) then rest else do f ← parse_function (trim p); fs ← rest; ok (f ∷ fs)

-- The functions of `parse_rule`.
unfoldable pub parse_match : Text → Parsed (List Function)
unfolding trim is_empty text_eq split_and_respecting_parens parse_functions
parse_match expr =
    let e = trim expr in
    if is_empty e || text_eq e (text "fallback")
    then ok []
    else parse_functions (split_and_respecting_parens e)
