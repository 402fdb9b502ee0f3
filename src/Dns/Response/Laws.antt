-- ===== src/Dns/Response/Laws.antt =====
-- What the answers that the forwarder makes itself, or takes from its cache, say.
use dae_rs.Prelude.{
  ℕ, zero, suc, ◌+◌, ◌*◌, ◌≤◌, ◌<◌, ◌≡◌, refl, ap, ◌⊎◌, Bool, true, ◌&&◌, List, [], ◌∷◌, ltb, leb,
  ◌==◌, if◌then◌else◌, length, drop, bit_and, arith, ==_iff, inl, inr,
}
use dae_rs.Dns.Read.{value, index, be16}
use dae_rs.Dns.Response.{
  rewrite_response_id, rd_of, error_flags, build_error_response, high_byte, low_byte,
}

-- Rewriting the ID of a response keeps its length and every byte behind the second; a response of two
-- bytes or more then has the new ID.
pub rewrite_response_id_lem :
    (response : List ℕ) (id : ℕ)
    → id < 65536
    → (length (rewrite_response_id response id) ≡ length response)
      × (drop 2 (rewrite_response_id response id) ≡ drop 2 response)
      × (2 ≤ length response → be16 (rewrite_response_id response id) 0 ≡ value id)
unfolding rewrite_response_id be16 index
rewrite_response_id_lem [] id h = (refl, refl, λ k. absurd (omega arith))
rewrite_response_id_lem (a ∷ []) id h = (refl, refl, λ k. absurd (omega arith))
rewrite_response_id_lem (a ∷ b ∷ rest) id h = (refl, refl, λ k. ap value (omega arith))

-- The flags of an answer, for each code and each value of the bit RD.
flags_table : ℕ → ℕ → Bool
flags_table rd zero = true
flags_table rd (suc r) =
    (error_flags rd r == 0x8000 + rd + r)
    && (bit_and (0x8000 + rd + r) 0x000f == r)
    && flags_table rd r

flags_checked : (flags_table 0 16 ≡ true) × (flags_table 0x0100 16 ≡ true)
unfolding flags_table error_flags
flags_checked = (refl, refl)

flags_table_sound :
    (rd n r : ℕ)
    → flags_table rd n ≡ true
    → r < n
    → (error_flags rd r ≡ 0x8000 + rd + r) × (bit_and (0x8000 + rd + r) 0x000f ≡ r)
unfolding flags_table
flags_table_sound rd zero r t h = absurd (omega arith)
flags_table_sound rd (suc n) r t h = ground (
  arith,
  flags_table_sound rd n r,
  ==_iff (error_flags rd n) (0x8000 + rd + n),
  ==_iff (bit_and (0x8000 + rd + n) 0x000f) n,
)

rd_cases : (query : List ℕ) → (rd_of query ≡ 0) ⊎ (rd_of query ≡ 0x0100)
unfolding rd_of
rd_cases query = ground arith

error_flags_lem :
    (query : List ℕ) (rcode : ℕ)
    → rcode < 16
    → (error_flags (rd_of query) rcode ≡ 0x8000 + rd_of query + rcode)
      × (bit_and (error_flags (rd_of query) rcode) 0x000f ≡ rcode)
      × (rd_of query ≤ 256)
error_flags_lem query rcode h = elim (rd_cases query) [
  | inl e ↦
      let (a, b) = flags_table_sound 0 16 rcode flags_checked.0 h in rw e (a, rw a b, omega arith)
  | inr e ↦
      let (a, b) = flags_table_sound 0x0100 16 rcode flags_checked.1 h in
      rw e (a, rw a b, omega arith)
]

-- The header of an error answer.
pub record ErrorAnswer (query : List ℕ) (rcode : ℕ) (response : List ℕ) : Type 0 where
  pub same_id : be16 response 0 ≡ be16 query 0
  pub flags : ℕ
  pub has_flags : be16 response 2 ≡ value flags
  pub is_response : 0x8000 ≤ flags
  pub has_rcode : bit_and flags 0x000f ≡ rcode
  pub one_question : be16 response 4 ≡ value 1
  pub no_answers : be16 response 6 ≡ value 0
  pub same_question : drop 12 response ≡ drop 12 query

question_of : (query : List ℕ) → List ℕ
question_of query = if ltb 12 (length query) then drop 12 query else []

drop-long : (n : ℕ) (xs : List ℕ) → length xs ≤ n → drop n xs ≡ []
drop-long zero [] h = refl
drop-long zero (x ∷ xs) h = absurd (omega arith)
drop-long (suc n) [] h = refl
drop-long (suc n) (x ∷ xs) h = drop-long n xs (omega arith)

question_of_lem : (query : List ℕ) → question_of query ≡ drop 12 query
unfolding question_of
question_of_lem query = ground (arith, drop-long 12 query)

bytes_of : (w : ℕ) → w < 65536 → high_byte w * 256 + low_byte w ≡ w
bytes_of w h = omega arith

-- The answer, byte for byte.
answer : ℕ → ℕ → ℕ → List ℕ → List ℕ
answer a b flags question =
    a ∷ b ∷ high_byte flags ∷ low_byte flags ∷ 0 ∷ 1 ∷ 0 ∷ 0 ∷ 0 ∷ 0 ∷ 0 ∷ 0 ∷ question

build_error_response-answer :
    (a b : ℕ) (rest : List ℕ) (rcode : ℕ)
    → build_error_response (a ∷ b ∷ rest) rcode
      ≡ answer a b (error_flags (rd_of (a ∷ b ∷ rest)) rcode) (question_of (a ∷ b ∷ rest))
unfolding build_error_response answer question_of
build_error_response-answer a b rest rcode =
    let two : leb 2 (suc (suc (length rest))) ≡ true = ground arith in rw two

answer-ErrorAnswer :
    (a b : ℕ) (rest question : List ℕ) (flags rcode : ℕ)
    → 0x8000 ≤ flags
    → flags < 65536
    → bit_and flags 0x000f ≡ rcode
    → question ≡ drop 10 rest
    → ErrorAnswer (a ∷ b ∷ rest) rcode (answer a b flags question)
unfolding be16 index answer
answer-ErrorAnswer a b rest question flags rcode low high code same = record {
  same_id = refl;
  flags = flags;
  has_flags = ap value (bytes_of flags high);
  is_response = low;
  has_rcode = code;
  one_question = refl;
  no_answers = refl;
  same_question = same;
}

-- To a query with a whole header, and a code below 16, the answer has the query's ID, the flag QR, the
-- code, one question and no answer in its header, and the query's bytes behind the header.
pub build_error_response-ErrorAnswer :
    (query : List ℕ) (rcode : ℕ)
    → 12 ≤ length query
    → rcode < 16
    → ErrorAnswer query rcode (build_error_response query rcode)
build_error_response-ErrorAnswer (a ∷ b ∷ rest) rcode h r =
    let (sum, code, small) = error_flags_lem (a ∷ b ∷ rest) rcode r in
    rw (build_error_response-answer a b rest rcode) (
      answer-ErrorAnswer a b rest _ _ rcode (omega arith) (omega arith) code
        (question_of_lem (a ∷ b ∷ rest)))
build_error_response-ErrorAnswer _ rcode h r = absurd (omega arith)
