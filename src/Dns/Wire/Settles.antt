-- ===== src/Dns/Wire/Settles.antt =====
-- Reading a query of any bytes ends, with no index out of bounds.
use dae_rs.Prelude.{
  ℕ, zero, suc, ◌+◌, ◌-◌, ◌≤◌, ◌<◌, ◌≡◌, refl, ◌⊎◌, ◌||◌, List, [], ◌∷◌, ◌++◌, Option, none, some,
  ltb, leb, ◌==◌, length, arith, inl, inr,
}
use dae_rs.Text.Utf8.{from_utf8}
use dae_rs.Text.{Text}
use dae_rs.Dns.Read.{
  Read, value, nothing, crashed, slice, Ensures, Anything, Ensures-bind, Ensures-index,
  Ensures-be16, Ensures-if,
}
use dae_rs.Dns.Wire.{
  skip_name, skip, parse_edns, read_labels, label_text, parse_dns_query, is_pointer, type_opt,
}

-- A name ends after its start, and at most one byte after the end of the message (behind a
-- compression pointer that is cut off).
abbrev pub NameEnd : List ℕ → ℕ → ℕ → Type 0
NameEnd buf pos p = (pos < p) × (p ≤ length buf + 1)

skip_name-NameEnd :
    (fuel : ℕ) (buf : List ℕ) (pos : ℕ)
    → length buf - pos < fuel
    → Ensures (NameEnd buf pos) (skip_name fuel buf pos)
unfolding skip_name
skip_name-NameEnd zero buf pos h = absurd (omega arith)
skip_name-NameEnd (suc fuel) buf pos h =
    Ensures-if (NameEnd buf pos) (leb (length buf) pos) _ _ (λ _. tt)
      λ below.
        let inside : pos < length buf = ground arith in
        Ensures-index (NameEnd buf pos) buf pos _ inside λ len.
          Ensures-if (NameEnd buf pos) (len == 0) _ _ (λ _. omega arith)
            λ _.
              Ensures-if (NameEnd buf pos) (is_pointer len) _ _ (λ _. omega arith)
                λ _.
                  Ensures-if (NameEnd buf pos) (ltb 63 len || ltb (length buf) (pos + 1 + len)) _ _
                    (λ _. tt)
                    λ _.
                      NameEnd-mono buf pos (pos + 1 + len) (skip_name fuel buf (pos + 1 + len))
                        (omega arith) (skip_name-NameEnd fuel buf (pos + 1 + len) (omega arith))
  where
    NameEnd-mono :
        (buf : List ℕ) (a b : ℕ) (r : Read ℕ)
        → a ≤ b
        → Ensures (NameEnd buf b) r
        → Ensures (NameEnd buf a) r
    NameEnd-mono buf a b (value p) h e = omega arith
    NameEnd-mono buf a b nothing h e = tt
    NameEnd-mono buf a b (crashed f) h e = e

-- From any place of any message, `skip_name` ends within its loop and reads no byte outside; where
-- it finds an end, this lies behind the start and at most one byte behind the message.
pub skip-NameEnd : (buf : List ℕ) (pos : ℕ) → Ensures (NameEnd buf pos) (skip buf pos)
unfolding skip
skip-NameEnd buf pos = skip_name-NameEnd (suc (length buf)) buf pos (omega arith)

NameEnd-of :
    (buf : List ℕ) (pos : ℕ) (r : Read ℕ)
    → Ensures (NameEnd buf pos) r
    → (r ≡ nothing) ⊎ ((p : ℕ) × (r ≡ value p) × NameEnd buf pos p)
NameEnd-of buf pos (value p) e = inr (p, refl, e)
NameEnd-of buf pos nothing e = inl refl
NameEnd-of buf pos (crashed f) e = absurd e

parse_edns-settles :
    (fuel : ℕ) (buf : List ℕ) (pos : ℕ)
    → length buf - pos < fuel
    → Ensures Anything (parse_edns fuel buf pos)
unfolding parse_edns
parse_edns-settles zero buf pos h = absurd (omega arith)
parse_edns-settles (suc fuel) buf pos h =
    Ensures-if Anything (ltb (length buf) (pos + 11)) _ _ (λ _. tt)
      λ _. elim (NameEnd-of buf pos (skip buf pos) (skip-NameEnd buf pos)) [
        | inl e ↦ rw (e, parse_edns) tt
        | inr (p, e, b) ↦
            rw (e, parse_edns)
              (Ensures-if Anything (ltb (length buf) (p + 10)) _ _ (λ _. tt)
                λ room.
                  let fits : p + 10 ≤ length buf = ground arith in
                  Ensures-be16 Anything buf p _ (omega arith) λ rtype.
                    Ensures-index Anything buf (p + 6) _ (omega arith) λ flags.
                      Ensures-be16 Anything buf (p + 8) _ (omega arith) λ rdlength.
                        Ensures-if Anything (ltb (length buf) (p + 10 + rdlength)) _ _ (λ _. tt)
                          λ _.
                            Ensures-if Anything (rtype == type_opt) _ _ (λ _. tt)
                              λ _. parse_edns-settles fuel buf (p + 10 + rdlength) (omega arith))
      ]

label_text-settles : (o : Option Text) → Ensures Anything (label_text o)
label_text-settles none = tt
label_text-settles (some t) = tt

slice-settles : (buf : List ℕ) (a b : ℕ) → a ≤ b → b ≤ length buf → Ensures Anything (slice buf a b)
unfolding slice
slice-settles buf a b h k = ground arith

read_labels-settles :
    (fuel : ℕ) (buf : List ℕ) (pos : ℕ) (labels : List Text)
    → length buf - pos < fuel
    → Ensures Anything (read_labels fuel buf pos labels)
unfolding read_labels
read_labels-settles zero buf pos labels h = absurd (omega arith)
read_labels-settles (suc fuel) buf pos labels h =
    Ensures-if Anything (leb (length buf) pos) _ _ (λ _. tt)
      λ below.
        let inside : pos < length buf = ground arith in
        Ensures-index Anything buf pos _ inside λ len.
          Ensures-if Anything (len == 0) _ _ (λ _. tt)
            λ _.
              Ensures-if Anything (is_pointer len || ltb 63 len || ltb (length buf) (pos + 1 + len))
                _ _ (λ _. tt)
                λ short.
                  let fits : pos + 1 + len ≤ length buf = ground arith in
                  Ensures-bind Anything Anything (slice buf (pos + 1) (pos + 1 + len)) _
                    (slice-settles buf (pos + 1) (pos + 1 + len) (omega arith) fits)
                    λ bytes _.
                      Ensures-bind Anything Anything (label_text (from_utf8 bytes)) _
                        (label_text-settles (from_utf8 bytes))
                        λ label _.
                          read_labels-settles fuel buf (pos + 1 + len) (labels ++ label ∷ [])
                            (omega arith)

-- For every sequence of bytes, `parse_dns_query` ends and reads no byte outside the message: it
-- returns a query or `None`.
pub parse_dns_query-settles : (buf : List ℕ) → Ensures Anything (parse_dns_query buf)
unfolding parse_dns_query
parse_dns_query-settles buf =
    Ensures-if Anything (ltb (length buf) 12) _ _ (λ _. tt)
      λ long.
        let header : 12 ≤ length buf = ground arith in
        Ensures-be16 Anything buf 0 _ (omega arith) λ id.
          Ensures-be16 Anything buf 4 _ (omega arith) λ qdcount.
            Ensures-if Anything (qdcount == 0) _ _ (λ _. tt)
              λ _.
                Ensures-bind Anything Anything (read_labels (suc (length buf)) buf 12 []) _
                  (read_labels-settles (suc (length buf)) buf 12 [] (omega arith))
                  λ name _.
                    Ensures-if Anything (ltb (length buf) (name.0 + 4)) _ _ (λ _. tt)
                      λ more.
                        let room : name.0 + 4 ≤ length buf = ground arith in
                        Ensures-be16 Anything buf name.0 _ (omega arith) λ qtype.
                          Ensures-bind Anything Anything
                            (parse_edns (suc (length buf)) buf (name.0 + 4)) _
                            (parse_edns-settles (suc (length buf)) buf (name.0 + 4) (omega arith))
                            λ edns _. tt
