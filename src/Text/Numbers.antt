-- ===== src/Text/Numbers.antt =====
-- What the sources use of the standard library's `from_str_radix` and `parse` of unsigned integers.
use dae_rs.Prelude.{
  ℕ, ◌+◌, ◌-◌, ◌*◌, ◌<◌, ◌≡◌, ◌&&◌, [], ◌∷◌, Option, none, some, ltb, leb, ◌==◌, if◌then◌else◌,
  arith, Option-cases, inl, inr,
}
use dae_rs.Text.{Text, is_empty}

-- `char::to_digit`
unfoldable pub digit_of : ℕ → ℕ → Option ℕ
digit_of radix c =
    let v =
      if leb b'0' c && leb c b'9'
      then c - b'0'
      else if leb b'a' c && leb c b'z'
      then c - b'a' + 10
      else if leb b'A' c && leb c b'Z'
      then c - b'A' + 10
      else 36 in
    if ltb v radix then some v else none

-- The digits behind those read so far; a value that reaches the limit is an error.
unfoldable pub read_digits : ℕ → ℕ → ℕ → Text → Option ℕ
unfolding digit_of
read_digits limit radix acc [] = some acc
read_digits limit radix acc (c ∷ cs) = elim (digit_of radix c) [
  | none ↦ none
  | some v ↦
      let next = acc * radix + v in
      let rest = read_digits limit radix next cs in if ltb next limit then rest else none
]

-- `from_str_radix` of the unsigned integers below the limit.
unfoldable pub from_str_radix : ℕ → ℕ → Text → Option ℕ
unfolding read_digits is_empty
from_str_radix limit radix [] = none
from_str_radix limit radix (c ∷ cs) =
    if c == b'+'
    then (if is_empty cs then none else read_digits limit radix 0 cs)
    else read_digits limit radix 0 (c ∷ cs)

read_digits-lt :
    (limit radix acc : ℕ) (s : Text) (v : ℕ)
    → acc < limit
    → read_digits limit radix acc s ≡ some v
    → v < limit
unfolding read_digits
read_digits-lt limit radix acc [] v h e = ground arith
read_digits-lt limit radix acc (c ∷ cs) v h e = elim (Option-cases (digit_of radix c)) [
  | inl k ↦ ground (arith, k)
  | inr (d, k) ↦ ground (arith, k, read_digits-lt limit radix (acc * radix + d) cs v)
]

pub from_str_radix-lt :
    (limit radix : ℕ) (s : Text) (v : ℕ)
    → 0 < limit
    → from_str_radix limit radix s ≡ some v
    → v < limit
unfolding from_str_radix
from_str_radix-lt limit radix [] v h e = ground arith
from_str_radix-lt limit radix (c ∷ cs) v h e =
    ground (arith, read_digits-lt limit radix 0 cs v, read_digits-lt limit radix 0 (c ∷ cs) v)
