-- ===== src/Dns/Ttl/Bounds.antt =====
-- The TTL of a response: reading it is safe on any bytes, and the cap of negative answers.
use dae_rs.Prelude.{
  ℕ, zero, suc, ◌+◌, ◌-◌, ◌≤◌, ◌≡◌, refl, sym, ◌∙◌, inl, inr, false, not, ◌&&◌, List, [], ◌∷◌,
  Option, none, some, ltb, ◌==◌, length, bit_and, min, arith,
}
use dae_rs.Dns.Read.{
  Read, value, nothing, crashed, ◌>>=◌, be16, Ensures, Anything, Ensures-bind, Ensures-be16,
  Ensures-be16_eq, Ensures-be32, Ensures-if, Read-cases, bind-bind,
}
use dae_rs.Dns.Wire.{skip}
use dae_rs.Dns.Wire.Settles.{NameEnd, skip-NameEnd}
use dae_rs.Dns.Ttl.{
  skip_questions, Fixed, read_record, least, min_answer_ttl, soa_ttl, parse_negative_ttl,
  or_nothing, parse_response_min_ttl, type_soa, negative_ttl_cap_secs,
}

skip_questions-settles :
    (n : ℕ) (buf : List ℕ) (pos : ℕ) → Ensures Anything (skip_questions n buf pos)
unfolding skip_questions
skip_questions-settles zero buf pos = tt
skip_questions-settles (suc n) buf pos =
    Ensures-bind (NameEnd buf pos) Anything (skip buf pos) _ (skip-NameEnd buf pos) λ p b.
      Ensures-if Anything (ltb (length buf) (p + 4)) _ _ (λ _. tt)
        λ _. skip_questions-settles n buf (p + 4)

-- The data of a record that was read lies within the message.
abbrev pub DataInside : List ℕ → Fixed → Type 0
DataInside buf r = r.start + r.rdlength ≤ length buf

read_record-DataInside : (buf : List ℕ) (pos : ℕ) → Ensures (DataInside buf) (read_record buf pos)
unfolding read_record
read_record-DataInside buf pos =
    Ensures-bind (NameEnd buf pos) (DataInside buf) (skip buf pos) _ (skip-NameEnd buf pos) λ p b.
      Ensures-if (DataInside buf) (ltb (length buf) (p + 10)) _ _ (λ _. tt)
        λ room.
          let fits : p + 10 ≤ length buf = ground arith in
          Ensures-be16 (DataInside buf) buf p _ (omega arith) λ rtype.
            Ensures-be32 (DataInside buf) buf (p + 4) _ (omega arith) λ ttl.
              Ensures-be16 (DataInside buf) buf (p + 8) _ (omega arith) λ rdlength.
                Ensures-if (DataInside buf) (ltb (length buf) (p + 10 + rdlength)) _ _ (λ _. tt)
                  λ more. ground arith

min_answer_ttl-settles :
    (n : ℕ) (buf : List ℕ) (pos : ℕ) (m : Option ℕ) → Ensures Anything (min_answer_ttl n buf pos m)
unfolding min_answer_ttl
min_answer_ttl-settles zero buf pos m = tt
min_answer_ttl-settles (suc n) buf pos m =
    Ensures-bind (DataInside buf) Anything (read_record buf pos) _ (read_record-DataInside buf pos)
      λ r b. min_answer_ttl-settles n buf (r.start + r.rdlength) (some (least m r.ttl))

abbrev pub Capped : ℕ → Type 0
Capped t = t ≤ negative_ttl_cap_secs

soa_ttl-Capped : (buf : List ℕ) (r : Fixed) → DataInside buf r → Ensures Capped (soa_ttl buf r)
unfolding soa_ttl
soa_ttl-Capped buf r b =
    Ensures-if Capped (ltb r.rdlength 22) _ _ (λ _. tt)
      λ long.
        let enough : 22 ≤ r.rdlength = ground arith in
        Ensures-be32 Capped buf (r.start + r.rdlength - 4) _ (omega arith) λ minimum. omega arith

parse_negative_ttl-Capped :
    (n : ℕ) (buf : List ℕ) (pos : ℕ) → Ensures Capped (parse_negative_ttl n buf pos)
unfolding parse_negative_ttl
parse_negative_ttl-Capped zero buf pos = omega arith
parse_negative_ttl-Capped (suc n) buf pos =
    Ensures-bind (DataInside buf) Capped (read_record buf pos) _ (read_record-DataInside buf pos)
      λ r b.
        Ensures-if Capped (r.rtype == type_soa) _ _ (λ _. soa_ttl-Capped buf r b)
          λ _. parse_negative_ttl-Capped n buf (r.start + r.rdlength)

-- The TTLs of the answers, in order.
unfoldable pub answer_ttls : ℕ → List ℕ → ℕ → Read (List ℕ)
unfolding read_record
answer_ttls zero buf pos = value []
answer_ttls (suc n) buf pos = do
  r ← read_record buf pos
  ts ← answer_ttls n buf (r.start + r.rdlength)
  value (r.ttl ∷ ts)

abbrev pub least_of : Option ℕ → List ℕ → Option ℕ
least_of m [] = m
least_of m (t ∷ ts) = least_of (some (least m t)) ts

min_answer_ttl-least_of :
    (n : ℕ) (buf : List ℕ) (pos : ℕ) (m : Option ℕ)
    → min_answer_ttl n buf pos m ≡ (answer_ttls n buf pos >>= λ ts. value (least_of m ts))
unfolding min_answer_ttl answer_ttls
min_answer_ttl-least_of zero buf pos m = refl
min_answer_ttl-least_of (suc n) buf pos m = elim (Read-cases (read_record buf pos)) [
  | inl (r, e) ↦ rw e (
      min_answer_ttl-least_of n buf (r.start + r.rdlength) (some (least m r.ttl))
      ∙ sym (
          bind-bind (answer_ttls n buf (r.start + r.rdlength)) (λ ts. value (r.ttl ∷ ts))
            (λ ts. value (least_of m ts))))
  | inr (inl e) ↦ rw e
  | inr (inr (f, e)) ↦ rw e
]

least_of-le : (ts : List ℕ) (m t : ℕ) → least_of (some m) ts ≡ some t → t ≤ m
least_of-le [] m t e = ground arith
least_of-le (x ∷ ts) m t e = omega (arith, least_of-le ts (min m x) t e)

abbrev pub AllAtLeast : ℕ → List ℕ → Type 0
AllAtLeast t [] = Unit {0}
AllAtLeast t (x ∷ xs) = (t ≤ x) × AllAtLeast t xs

least_of-AllAtLeast :
    (ts : List ℕ) (m : Option ℕ) (t : ℕ) → least_of m ts ≡ some t → AllAtLeast t ts
least_of-AllAtLeast [] m t e = tt
least_of-AllAtLeast (x ∷ ts) m t e = (lower m e, least_of-AllAtLeast ts (some (least m x)) t e)
  where
    lower : (m : Option ℕ) → least_of (some (least m x)) ts ≡ some t → t ≤ x
    lower none e = least_of-le ts x t e
    lower (some k) e = omega (arith, least_of-le ts (min k x) t e)

-- Where the TTLs of the first `n` answers can be read, and the loop over them returns a TTL, this is
-- at most the TTL of each of them.
pub min_answer_ttl-le :
    (n : ℕ) (buf : List ℕ) (pos : ℕ) (t : ℕ) (ts : List ℕ)
    → answer_ttls n buf pos ≡ value ts
    → min_answer_ttl n buf pos none ≡ value (some t)
    → AllAtLeast t ts
min_answer_ttl-le n buf pos t ts e r =
    least_of-AllAtLeast ts none t
      (value-injective (sym (rw e at (min_answer_ttl-least_of n buf pos none)) ∙ r))
  where
    value-injective : {a b : Option ℕ} → ◌≡◌ {A = Read (Option ℕ)} (value a) (value b) → a ≡ b
    value-injective e = cc

or_nothing-settles : (m : Option ℕ) → Ensures Anything (or_nothing m)
or_nothing-settles none = tt
or_nothing-settles (some t) = tt

Anything-of {ℓ} : {A : Type ℓ} (P : A → Type 0) (r : Read A) → Ensures P r → Ensures Anything r
Anything-of P (value a) e = tt
Anything-of P nothing e = tt
Anything-of P (crashed f) e = e

-- For every sequence of bytes, `parse_response_min_ttl` reads no byte outside the message: it returns
-- a TTL or `None`.
pub parse_response_min_ttl-settles : (buf : List ℕ) → Ensures Anything (parse_response_min_ttl buf)
unfolding parse_response_min_ttl
parse_response_min_ttl-settles buf =
    Ensures-if Anything (ltb (length buf) 12) _ _ (λ _. tt)
      λ long.
        let header : 12 ≤ length buf = ground arith in
        Ensures-be16 Anything buf 2 _ (omega arith) λ flags.
          Ensures-if Anything (bit_and flags 0x8000 == 0) _ _ (λ _. tt)
            λ _. Ensures-be16 Anything buf 4 _ (omega arith) λ qdcount.
              Ensures-be16 Anything buf 6 _ (omega arith) λ ancount.
                Ensures-be16 Anything buf 8 _ (omega arith) λ nscount.
                  Ensures-bind Anything Anything (skip_questions qdcount buf 12) _
                    (skip_questions-settles qdcount buf 12)
                    λ pos _.
                      Ensures-if Anything (ancount == 0) _ _
                        (λ _.
                          Ensures-if Anything
                            (not (bit_and flags 0x000f == 0) && not (bit_and flags 0x000f == 3)) _ _
                            (λ _. tt)
                            λ _.
                              Anything-of Capped (parse_negative_ttl nscount buf pos)
                                (parse_negative_ttl-Capped nscount buf pos))
                        λ _.
                          Ensures-bind Anything Anything (min_answer_ttl ancount buf pos none) _
                            (min_answer_ttl-settles ancount buf pos none)
                            λ m _. or_nothing-settles m

-- Where the header counts no answers, the TTL that is returned, if any, is at most an hour.
pub parse_response_min_ttl-Capped :
    (buf : List ℕ) → be16 buf 6 ≡ value 0 → Ensures Capped (parse_response_min_ttl buf)
unfolding parse_response_min_ttl
parse_response_min_ttl-Capped buf none_there =
    Ensures-if Capped (ltb (length buf) 12) _ _ (λ _. tt)
      λ long.
        let header : 12 ≤ length buf = ground arith in
        Ensures-be16 Capped buf 2 _ (omega arith) λ flags.
          Ensures-if Capped (bit_and flags 0x8000 == 0) _ _ (λ _. tt)
            λ _. Ensures-be16 Capped buf 4 _ (omega arith) λ qdcount.
              Ensures-be16_eq Capped buf 6 _ (omega arith) λ ancount e.
                Ensures-be16 Capped buf 8 _ (omega arith) λ nscount.
                  Ensures-bind Anything Capped (skip_questions qdcount buf 12) _
                    (skip_questions-settles qdcount buf 12)
                    λ pos _.
                      Ensures-if Capped (ancount == 0) _ _
                        (λ _.
                          Ensures-if Capped
                            (not (bit_and flags 0x000f == 0) && not (bit_and flags 0x000f == 3)) _ _
                            (λ _. omega arith) λ _. parse_negative_ttl-Capped nscount buf pos)
                        λ some_there. absurd (is_zero ancount (sym none_there ∙ e) some_there)
  where
    is_zero : (n : ℕ) → ◌≡◌ {A = Read ℕ} (value 0) (value n) → (n == 0) ≡ false → ⊥
    is_zero n e f = ground arith
