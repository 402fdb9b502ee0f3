-- ===== src/Text/Address.antt =====
-- `Ipv4Addr::from_str` and `Ipv6Addr::from_str` of the standard library: its parser of addresses, which
-- gives the address as a number and fails unless the whole text is read.
use dae_rs.Prelude.{
  ℕ, zero, suc, ◌+◌, ◌-◌, ◌*◌, ◌/◌, ◌%◌, Bool, true, false, not, ◌&&◌, ◌||◌, List, [], ◌∷◌, ◌++◌,
  Option, none, some, ltb, leb, ◌==◌, if◌then◌else◌, length, replicate,
}
use dae_rs.Text.{Text, is_empty}
use dae_rs.Text.Numbers.{digit_of}

-- What a reader returns, and what is left of the text.
abbrev Reader : Type 0
Reader = Text → Option (ℕ × Text)

abbrev and_then {ℓ κ} : {A : Type ℓ} {B : Type κ} → Option A → (A → Option B) → Option B
and_then none f = none
and_then (some a) f = f a

-- The digits at the start: their value, how many they are, and the rest.
unfoldable read_while : ℕ → ℕ → ℕ → Text → ℕ × ℕ × Text
unfolding digit_of
read_while radix acc count [] = (acc, count, [])
read_while radix acc count (c ∷ cs) = elim (digit_of radix c) [
  | none ↦ (acc, count, c ∷ cs)
  | some d ↦ read_while radix (acc * radix + d) (suc count) cs
]

abbrev starts_with_zero : Text → Bool
starts_with_zero [] = false
starts_with_zero (c ∷ cs) = c == b'0'

-- `read_number`
unfoldable pub read_number : ℕ → ℕ → Bool → ℕ → Reader
unfolding read_while
read_number radix max_digits allow_zero_prefix limit s =
    let r = read_while radix 0 0 s in
    if r.1 == 0
      || ltb max_digits r.1
      || (not allow_zero_prefix && starts_with_zero s && ltb 1 r.1)
      || leb limit r.0
    then none
    else some (r.0, r.2)

unfoldable pub read_given_char : ℕ → Text → Option Text
read_given_char c [] = none
read_given_char c (d ∷ ds) = if c == d then some ds else none

-- `read_separator`
unfoldable pub read_separator : ℕ → ℕ → Reader → Reader
unfolding read_given_char
read_separator sep index inner s =
    if index == 0 then inner s else and_then (read_given_char sep s) inner

-- The octets behind `index` that are read; the first argument counts those due.
unfoldable read_octets : ℕ → ℕ → ℕ → Reader
unfolding read_separator read_number
read_octets zero index acc s = some (acc, s)
read_octets (suc due) index acc s =
    and_then (read_separator b'.' index (read_number 10 3 false 256) s)
      λ r. read_octets due (suc index) (acc * 256 + r.0) r.1

unfoldable pub read_ipv4_addr : Reader
unfolding read_octets
read_ipv4_addr s = read_octets 4 0 0 s

abbrev whole : Option (ℕ × Text) → Option ℕ
whole none = none
whole (some (a, rest)) = if is_empty rest then some a else none

unfoldable pub parse_ipv4 : Text → Option ℕ
unfolding read_ipv4_addr is_empty
parse_ipv4 s = if ltb 15 (length s) then none else whole (read_ipv4_addr s)

-- What `read_groups` returns: the groups, whether the last two are an IPv4 address, and the rest.
record Groups : Type 0 where
  groups : List ℕ
  with_ipv4 : Bool
  rest : Text

abbrev prepend : ℕ → Groups → Groups
prepend g r = record r { groups = g ∷ r.groups }

unfoldable read_groups : ℕ → ℕ → Text → Groups
unfolding read_separator read_number read_ipv4_addr
read_groups zero index s = record { groups = []; with_ipv4 = false; rest = s }
read_groups (suc due) index s =
    let embedded = if ltb 0 due then read_separator b':' index read_ipv4_addr s else none in
    let read = λ (r : ℕ × Text). prepend r.0 (read_groups due (suc index) r.1) in
    elim embedded [
      | some (v4, rest) ↦ record {
        groups = v4 / 65536 ∷ v4 % 65536 ∷ [];
        with_ipv4 = true;
        rest = rest;
      }
      | none ↦ elim (read_separator b':' index (read_number 16 4 true 65536) s) [
        | none ↦ record { groups = []; with_ipv4 = false; rest = s }
        | some r ↦ read r
      ]
    ]

unfoldable from_groups : ℕ → List ℕ → ℕ
from_groups acc [] = acc
from_groups acc (g ∷ gs) = from_groups (acc * 65536 + g) gs

unfoldable pub read_ipv6_addr : Reader
unfolding read_groups from_groups read_given_char
read_ipv6_addr s =
    let head = read_groups 8 0 s in
    if length head.groups == 8
    then some (from_groups 0 head.groups, head.rest)
    else if head.with_ipv4
    then none
    else and_then (read_given_char b':' head.rest) λ t. and_then (read_given_char b':' t) λ u.
      let tail = read_groups (7 - length head.groups) 0 u in
      let gap = replicate (8 - length head.groups - length tail.groups) 0 in
      some (from_groups 0 (head.groups ++ gap ++ tail.groups), tail.rest)

unfoldable pub parse_ipv6 : Text → Option ℕ
unfolding read_ipv6_addr is_empty
parse_ipv6 s = whole (read_ipv6_addr s)
