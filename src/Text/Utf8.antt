-- ===== src/Text/Utf8.antt =====
-- `std::str::from_utf8` and `str::as_bytes`: a text as bytes.
use dae_rs.Prelude.{
  ℕ, ◌+◌, ◌-◌, ◌*◌, ◌/◌, ◌%◌, ◌&&◌, List, [], ◌∷◌, ◌++◌, Option, none, some, ltb, leb, ◌==◌,
  if◌then◌else◌,
}
use dae_rs.Text.{Text}

-- How many continuation bytes are due, the bits so far, and the range of the next byte.
pub record Pending : Type 0 where
  pub due : ℕ
  pub bits : ℕ
  pub lo : ℕ
  pub hi : ℕ

abbrev pub idle : Pending
idle = record { due = 0; bits = 0; lo = 0; hi = 0 }

abbrev pub expect : ℕ → ℕ → ℕ → ℕ → Option (Pending × Text)
expect due bits lo hi = some (record { due = due; bits = bits; lo = lo; hi = hi }, [])

-- The first byte of a character.
pub lead : ℕ → Option (Pending × Text)
lead b =
    if ltb b 0x80
    then some (idle, b ∷ [])
    else if ltb b 0xc2
    then none
    else if ltb b 0xe0
    then expect 1 (b - 0xc0) 0x80 0xbf
    else if b == 0xe0
    then expect 2 0 0xa0 0xbf
    else if b == 0xed
    then expect 2 0xd 0x80 0x9f
    else if ltb b 0xf0
    then expect 2 (b - 0xe0) 0x80 0xbf
    else if b == 0xf0
    then expect 3 0 0x90 0xbf
    else if ltb b 0xf4
    then expect 3 (b - 0xf0) 0x80 0xbf
    else if b == 0xf4
    then expect 3 4 0x80 0x8f
    else none

pub advance : Pending → ℕ → Option (Pending × Text)
advance s b =
    let bits = s.bits * 64 + b % 64 in
    if s.due == 0
    then lead b
    else if leb s.lo b && leb b s.hi
    then (if s.due == 1 then some (idle, bits ∷ []) else expect (s.due - 1) bits 0x80 0xbf)
    else none

unfoldable pub decode_from : Pending → List ℕ → Option Text
unfolding advance lead
decode_from s [] = if s.due == 0 then some [] else none
decode_from s (b ∷ bs) = elim (advance s b) [
  | none ↦ none
  | some (s', out) ↦ elim (decode_from s' bs) [ none ↦ none | some t ↦ some (out ++ t) ]
]

unfoldable pub from_utf8 : List ℕ → Option Text
unfolding decode_from
from_utf8 = decode_from idle

unfoldable pub encode_char : ℕ → List ℕ
encode_char c =
    if ltb c 0x80
    then c ∷ []
    else if ltb c 0x800
    then (0xc0 + c / 64) ∷ (0x80 + c % 64) ∷ []
    else if ltb c 0x1_0000
    then (0xe0 + c / 4096) ∷ (0x80 + c / 64 % 64) ∷ (0x80 + c % 64) ∷ []
    else (0xf0 + c / 262144) ∷ (0x80 + c / 4096 % 64) ∷ (0x80 + c / 64 % 64) ∷ (0x80 + c % 64) ∷ []

unfoldable pub as_bytes : Text → List ℕ
unfolding encode_char
as_bytes [] = []
as_bytes (c ∷ cs) = encode_char c ++ as_bytes cs
