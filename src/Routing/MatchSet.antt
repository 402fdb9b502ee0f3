-- ===== src/Routing/MatchSet.antt =====
-- control/src/net/ebpf.rs: `MatchSet`, `MatchSetValue`, and the codes of `match_type` and `outbound`.
pub mod MatchType
pub mod Outbound
use dae_rs.Prelude.{
  ℕ, ◌+◌, ◌*◌, ◌/◌, ◌%◌, ◌≡◌, refl, sym, ap, ◌∙◌, true, false, Bool-cases, ==_iff, inl, inr, ◌<◌,
  ◌^◌, Bool, not, bit_and, List, [], ◌∷◌, ◌++◌, get_or, take, replicate, length, ◌-◌, ◌==◌, arith,
  min,
}

-- The union `MatchSetValue` is its 16 bytes; a number is stored with its low byte first.
abbrev pub Value : Type 0
Value = List ℕ

abbrev pub zeroed : Value
zeroed = replicate 16 0

pub record MatchSet : Type 0 where
  pub value : Value
  pub negated : Bool
  pub type : ℕ
  pub outbound : ℕ
  pub must : Bool
  pub mark : ℕ

abbrev pub with_index : ℕ → Value
with_index i =
    (i % 256) ∷ (i / 256 % 256) ∷ (i / 65536 % 256) ∷ (i / 16777216 % 256) ∷ replicate 12 0

abbrev pub with_port_range : ℕ → ℕ → Value
with_port_range first last =
    (first % 256) ∷ (first / 256 % 256) ∷ (last % 256) ∷ (last / 256 % 256) ∷ replicate 12 0

abbrev pub with_byte : ℕ → Value
with_byte b = b ∷ replicate 15 0

-- `buf[..len].copy_from_slice(..)` with `len` at most 16.
abbrev pub with_name : List ℕ → Value
with_name bytes = take 16 (bytes ++ replicate 16 0)

unfoldable pub index_of : Value → ℕ
index_of v = get_or v 0 0 + 256 * get_or v 1 0 + 65536 * get_or v 2 0 + 16777216 * get_or v 3 0

unfoldable pub port_start_of : Value → ℕ
port_start_of v = get_or v 0 0 + 256 * get_or v 1 0

unfoldable pub port_end_of : Value → ℕ
port_end_of v = get_or v 2 0 + 256 * get_or v 3 0

unfoldable pub byte_of : Value → ℕ
byte_of v = get_or v 0 0

-- What is written is read back.
pub index_of-with_index : (i : ℕ) → i < 2 ^ 32 → index_of (with_index i) ≡ i
unfolding index_of
index_of-with_index i h = omega arith

pub port_start-with_port_range : (a b : ℕ) → a < 65536 → port_start_of (with_port_range a b) ≡ a
unfolding port_start_of
port_start-with_port_range a b h = omega arith

pub port_end-with_port_range : (a b : ℕ) → b < 65536 → port_end_of (with_port_range a b) ≡ b
unfolding port_end_of
port_end-with_port_range a b h = omega arith

-- `(outbound & LOGICAL_MASK) == LOGICAL_MASK`: the entry does not end its rule.
abbrev pub is_linked : ℕ → Bool
is_linked o = bit_and o Outbound.logical_mask == Outbound.logical_mask

-- The two logical outbounds are linked.
pub not_linked :
    (o : ℕ)
    → is_linked o ≡ false
    → ((o == Outbound.logical_or) ≡ false) × ((o == Outbound.logical_and) ≡ false)
not_linked o e = (ne Outbound.logical_or refl, ne Outbound.logical_and refl)
  where
    ne : (k : ℕ) → is_linked k ≡ true → (o == k) ≡ false
    ne k l = elim (Bool-cases (o == k)) [
      | inl f ↦ let at_k : o ≡ k = (==_iff o k).0 f in cc (sym e ∙ ap is_linked at_k ∙ l)
      | inr f ↦ f
    ]
