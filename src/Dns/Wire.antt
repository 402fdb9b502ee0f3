-- ===== src/Dns/Wire.antt =====
-- control/src/net/dns.rs: `skip_name`, `parse_edns` and `parse_dns_query`.
use dae_rs.Prelude.{
  ℕ, zero, suc, ◌+◌, ◌-◌, ◌*◌, ◌≤◌, ◌<◌, ◌≡◌, Bool, true, false, not, ◌&&◌, ◌||◌, List, [], ◌∷◌,
  ◌++◌, Option, none, some, ltb, leb, ◌==◌, if◌then◌else◌, length, bit_and,
}
use dae_rs.Text.Utf8.{from_utf8}
use dae_rs.Text.{Text, to_ascii_lowercase, join}
use dae_rs.Dns.Read.{
  Read, value, nothing, crashed, out_of_fuel, ◌>>=◌, ◌>>◌, index, slice, be16, be32,
}
pub mod Settles

abbrev pub dns_header_len : ℕ
dns_header_len = 12

abbrev pub type_opt : ℕ
type_opt = 41

pub record DnsQuery : Type 0 where
  pub id : ℕ
  pub qname : Text
  pub qtype : ℕ
  pub has_edns : Bool
  pub do_bit : Bool

-- A length byte with both high bits set begins a compression pointer.
abbrev pub is_pointer : ℕ → Bool
is_pointer len = bit_and len 0xc0 == 0xc0

unfoldable pub skip_name : ℕ → List ℕ → ℕ → Read ℕ
unfolding index
skip_name zero buf pos = crashed out_of_fuel
skip_name (suc fuel) buf pos = if leb (length buf) pos then nothing else do
  len ← index buf pos
  let rest = skip_name fuel buf (pos + 1 + len)
  if len == 0
      then value (pos + 1)
      else if is_pointer len
      then value (pos + 2)
      else if ltb 63 len || ltb (length buf) (pos + 1 + len)
      then nothing
      else rest

-- Each round of `skip_name` moves on by at least one byte.
unfoldable pub skip : List ℕ → ℕ → Read ℕ
unfolding skip_name
skip buf pos = skip_name (suc (length buf)) buf pos

-- The answer `(has_edns, do_bit)`; a name that cannot be skipped answers `(false, false)`.
unfoldable pub parse_edns : ℕ → List ℕ → ℕ → Read (Bool × Bool)
unfolding skip be16 index
parse_edns zero buf pos = crashed out_of_fuel
parse_edns (suc fuel) buf pos =
    if ltb (length buf) (pos + 11) then value (false, false) else elim (skip buf pos) [
      | nothing ↦ value (false, false)
      | crashed e ↦ crashed e
      | value p ↦ if ltb (length buf) (p + 10) then value (false, false) else do
        rtype ← be16 buf p
        flags ← index buf (p + 6)
        rdlength ← be16 buf (p + 8)
        let rest = parse_edns fuel buf (p + 10 + rdlength)
        if ltb (length buf) (p + 10 + rdlength)
            then value (false, false)
            else if rtype == type_opt
            then value (true, not (bit_and flags 0x80 == 0))
            else rest
    ]

-- `std::str::from_utf8(..).ok()?`
abbrev pub label_text : Option Text → Read Text
label_text none = nothing
label_text (some t) = value (to_ascii_lowercase t)

-- The loop over the labels: where the name ends, and its labels.
unfoldable pub read_labels : ℕ → List ℕ → ℕ → List Text → Read (ℕ × List Text)
unfolding index slice from_utf8 to_ascii_lowercase
read_labels zero buf pos labels = crashed out_of_fuel
read_labels (suc fuel) buf pos labels = if leb (length buf) pos then nothing else do
  len ← index buf pos
  let next = do
    bytes ← slice buf (pos + 1) (pos + 1 + len)
    label ← label_text (from_utf8 bytes)
    read_labels fuel buf (pos + 1 + len) (labels ++ label ∷ [])
  if len == 0
      then value (pos + 1, labels)
      else if is_pointer len || ltb 63 len || ltb (length buf) (pos + 1 + len)
      then nothing
      else next

unfoldable pub parse_dns_query : List ℕ → Read DnsQuery
unfolding read_labels be16 parse_edns join
parse_dns_query buf = if ltb (length buf) dns_header_len then nothing else do
  id ← be16 buf 0
  qdcount ← be16 buf 4
  if qdcount == 0 then nothing else do
    (pos, labels) ← read_labels (suc (length buf)) buf dns_header_len []
    if ltb (length buf) (pos + 4) then nothing else do
      qtype ← be16 buf pos
      (has_edns, do_bit) ← parse_edns (suc (length buf)) buf (pos + 4)
      value (record {
        id = id;
        qname = join (b'.' ∷ []) labels;
        qtype = qtype;
        has_edns = has_edns;
        do_bit = do_bit;
      })
