-- ===== src/Dns/Ttl.antt =====
-- control/src/net/dns.rs: `parse_response_min_ttl` and `parse_negative_ttl`.
use dae_rs.Prelude.{
  ℕ, zero, suc, ◌+◌, ◌-◌, ◌*◌, ◌/◌, ◌%◌, ◌≤◌, ◌<◌, ◌≡◌, Bool, true, false, not, ◌&&◌, ◌||◌, List,
  [], ◌∷◌, ◌++◌, Option, none, some, ltb, leb, ◌==◌, if◌then◌else◌, length, bit_and, min,
}
use dae_rs.Dns.Read.{Read, value, nothing, crashed, ◌>>=◌, ◌>>◌, index, be16, be32}
use dae_rs.Dns.Wire.{skip, dns_header_len}
pub mod Bounds

abbrev pub type_soa : ℕ
type_soa = 6

abbrev pub negative_ttl_cap_secs : ℕ
negative_ttl_cap_secs = 3600

-- `for _ in 0..qdcount`: past the questions.
unfoldable pub skip_questions : ℕ → List ℕ → ℕ → Read ℕ
unfolding skip
skip_questions zero buf pos = value pos
skip_questions (suc n) buf pos = do
  p ← skip buf pos
  if ltb (length buf) (p + 4) then nothing else skip_questions n buf (p + 4)

-- The fixed fields behind the name of a record: type, TTL, where its data begins, and its length.
pub record Fixed : Type 0 where
  pub rtype : ℕ
  pub ttl : ℕ
  pub start : ℕ
  pub rdlength : ℕ

unfoldable pub read_record : List ℕ → ℕ → Read Fixed
unfolding skip be16 be32
read_record buf pos = do
  p ← skip buf pos
  if ltb (length buf) (p + 10) then nothing else do
    rtype ← be16 buf p
    ttl ← be32 buf (p + 4)
    rdlength ← be16 buf (p + 8)
    if ltb (length buf) (p + 10 + rdlength)
        then nothing
        else value (record { rtype = rtype; ttl = ttl; start = p + 10; rdlength = rdlength })

abbrev pub least : Option ℕ → ℕ → ℕ
least none ttl = ttl
least (some m) ttl = min m ttl

-- The loop over the answers.
unfoldable pub min_answer_ttl : ℕ → List ℕ → ℕ → Option ℕ → Read (Option ℕ)
unfolding read_record
min_answer_ttl zero buf pos m = value m
min_answer_ttl (suc n) buf pos m = do
  r ← read_record buf pos
  min_answer_ttl n buf (r.start + r.rdlength) (some (least m r.ttl))

-- Of the SOA record: its TTL and the last number of its data, capped.
unfoldable pub soa_ttl : List ℕ → Fixed → Read ℕ
unfolding be32
soa_ttl buf r = if ltb r.rdlength 22 then nothing else do
  minimum ← be32 buf (r.start + r.rdlength - 4)
  value (min (min r.ttl minimum) negative_ttl_cap_secs)

unfoldable pub parse_negative_ttl : ℕ → List ℕ → ℕ → Read ℕ
unfolding read_record soa_ttl
parse_negative_ttl zero buf pos = value 0
parse_negative_ttl (suc n) buf pos = do
  r ← read_record buf pos
  let rest = parse_negative_ttl n buf (r.start + r.rdlength)
  if r.rtype == type_soa then soa_ttl buf r else rest

abbrev pub or_nothing {ℓ} : {A : Type ℓ} → Option A → Read A
or_nothing none = nothing
or_nothing (some a) = value a

unfoldable pub parse_response_min_ttl : List ℕ → Read ℕ
unfolding be16 skip_questions min_answer_ttl parse_negative_ttl
parse_response_min_ttl buf = if ltb (length buf) dns_header_len then nothing else do
  flags ← be16 buf 2
  if bit_and flags 0x8000 == 0 then nothing else do
    qdcount ← be16 buf 4
    ancount ← be16 buf 6
    nscount ← be16 buf 8
    pos ← skip_questions qdcount buf dns_header_len
    let rcode = bit_and flags 0x000f
    if ancount == 0
        then (if not (rcode == 0) && not (rcode == 3)
            then value 0
            else parse_negative_ttl nscount buf pos)
        else do m ← min_answer_ttl ancount buf pos none; or_nothing m
