-- ===== src/Dns/Response.antt =====
-- control/src/net/dns.rs: `rewrite_response_id` and `build_error_response`.
use dae_rs.Prelude.{
  ℕ, ◌+◌, ◌-◌, ◌*◌, ◌/◌, ◌%◌, ◌≤◌, ◌<◌, ◌≡◌, refl, ap, Bool, true, false, not, ◌&&◌, List, [], ◌∷◌,
  ◌++◌, Option, none, some, ltb, leb, ◌==◌, if◌then◌else◌, length, get_or, take, drop, bit_and,
  bit_or, arith,
}
use dae_rs.Dns.Read.{Read, value, index, be16}
use dae_rs.Dns.Wire.{dns_header_len}
pub mod Laws

-- Two bytes, the high one first: `to_be_bytes` of a u16.
abbrev pub high_byte : ℕ → ℕ
high_byte w = w / 256 % 256

abbrev pub low_byte : ℕ → ℕ
low_byte w = w % 256

unfoldable pub rewrite_response_id : List ℕ → ℕ → List ℕ
rewrite_response_id [] id = []
rewrite_response_id (a ∷ []) id = a ∷ []
rewrite_response_id (a ∷ b ∷ rest) id = high_byte id ∷ low_byte id ∷ rest

-- `query[2] & 0x01` says whether recursion is desired.
unfoldable pub rd_of : List ℕ → ℕ
rd_of query =
    if leb 4 (length query) && not (bit_and (get_or query 2 0) 0x01 == 0) then 0x0100 else 0

unfoldable pub error_flags : ℕ → ℕ → ℕ
error_flags rd rcode = bit_or (bit_or 0x8000 rd) (bit_and rcode 0x000f)

unfoldable pub build_error_response : List ℕ → ℕ → List ℕ
unfolding rd_of error_flags
build_error_response query rcode =
    let flags = error_flags (rd_of query) rcode in
    let id = if leb 2 (length query) then take 2 query else 0 ∷ 0 ∷ [] in
    let question = if ltb dns_header_len (length query) then drop dns_header_len query else [] in
    id ++ (high_byte flags ∷ low_byte flags ∷ 0 ∷ 1 ∷ 0 ∷ 0 ∷ 0 ∷ 0 ∷ 0 ∷ 0 ∷ question)
