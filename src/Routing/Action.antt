-- ===== src/Routing/Action.antt =====
-- control/src/routing/matcher.rs: `Outbound::parse_action`, `parse_proxy_params`, `parse_mark_value`, and
-- `parse_rule`.
use dae_rs.Prelude.{
  ℕ, ◌+◌, ◌-◌, ◌*◌, ◌^◌, Bool, true, false, ◌&&◌, ◌||◌, List, [], ◌∷◌, ◌++◌, Option, none, some,
  ltb, leb, ◌==◌, if◌then◌else◌,
}
use dae_rs.Text.{Text, text, text_eq, is_empty, trim, strip_prefix}
use dae_rs.Text.Numbers.{from_str_radix}
use dae_rs.Routing.Expression.{
  Outbound, NormalizedRule, Parsed, ok, err, ◌>>=◌, empty_outbound, invalid_mark,
  unexpected_parameter, missing_name, parse_comma_separated, strip_last, parse_match,
}
pub mod Laws

abbrev pub or_hex : Option Text → Option Text → Option Text
or_hex (some t) other = some t
or_hex none other = other

unfoldable pub read_mark : Text → Option ℕ
unfolding strip_prefix from_str_radix
read_mark t = elim (or_hex (strip_prefix (text "0x") t) (strip_prefix (text "0X") t)) [
  | some hex ↦ from_str_radix (2 ^ 32) 16 hex
  | none ↦ from_str_radix (2 ^ 32) 10 t
]

abbrev pub or_invalid : Option ℕ → Parsed ℕ
or_invalid none = err invalid_mark
or_invalid (some v) = ok v

unfoldable pub parse_mark_value : Text → Parsed ℕ
unfolding trim read_mark
parse_mark_value s = or_invalid (read_mark (trim s))

-- The loop of `parse_proxy_params`; `part` is already trimmed by `parse_comma_separated`.
unfoldable pub params_loop : List Text → Outbound → Parsed Outbound
unfolding text_eq strip_prefix parse_mark_value is_empty trim
params_loop [] o = ok o
params_loop (p ∷ ps) o =
    let part = trim p in
    if text_eq part (text "must")
    then params_loop ps (record o { must = true })
    else elim (strip_prefix (text "mark=") part) [
      | some mark_val ↦ (do
        mark ← parse_mark_value mark_val
        params_loop ps (record o { mark = mark }))
      | none ↦
          if is_empty o.name
          then params_loop ps (record o { name = part })
          else err unexpected_parameter
    ]

abbrev pub new : Text → Outbound
new name = record { name = name; mark = 0; must = false }

abbrev pub named : Outbound → Parsed Outbound
named o = if is_empty o.name then err missing_name else ok o

unfoldable pub parse_proxy_params : Text → Parsed Outbound
unfolding parse_comma_separated params_loop is_empty
parse_proxy_params inner =
    let parts = parse_comma_separated inner in
    if is_empty parts then err empty_outbound else params_loop parts (new []) >>= named

abbrev pub proxy_inner : Option Text → Option Text
proxy_inner none = none
proxy_inner (some s) = strip_last b')' s

unfoldable pub parse_action : Text → Parsed Outbound
unfolding trim text_eq strip_prefix strip_last parse_proxy_params
parse_action action =
    let a = trim action in
    if text_eq a (text "direct") || text_eq a (text "block")
    then ok (new a)
    else elim (proxy_inner (strip_prefix (text "proxy(") a)) [
      | some inner ↦ parse_proxy_params inner
      | none ↦ ok (new a)
    ]

-- A `RouteRule` of the configuration is its expression and its action; where the action is wrong, and the
-- expression too, the error is the action's.
unfoldable pub parse_rule : Text → Text → Parsed NormalizedRule
unfolding parse_action parse_match
parse_rule expr action = do
  outbound ← parse_action action
  and_functions ← parse_match expr
  ok (record { and_functions = and_functions; outbound = outbound })
