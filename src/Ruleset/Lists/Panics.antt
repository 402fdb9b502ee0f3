-- ===== src/Ruleset/Lists/Panics.antt =====
-- Which lists make the parsers panic.
use dae_rs.Prelude.{
  ℕ, suc, ◌+◌, ◌≤◌, ◌<◌, refl, sym, subst, Bool, true, false, List, [], ◌∷◌, Option, none, some,
  if◌then◌else◌, length, arith,
}
use dae_rs.Text.{Text, text, trim}
use dae_rs.Ruleset.IpSet.{IpNet}
use dae_rs.Ruleset.Lists.{
  ListError, invalid_ip, invalid_domain, unrecognized_rule, Outcome, ok, err, panicked, ◌>>=◌,
  pushed, lines_from, parse_lines, ip_line, found_or, parse_ip_list, parse_ip_line, first_arg,
  is_skipped, line_is_rule_keyword, non_ip_rule_prefixes, has_comma, strip_rule_keyword,
}
use dae_rs.Ruleset.Lists.Slices.{AllAscii, AllAscii-is_ascii, strip_rule_keyword-strip_chars}

abbrev line_of_error : ListError → ℕ
line_of_error (invalid_ip n t) = n
line_of_error (invalid_domain n t) = n
line_of_error (unrecognized_rule n t) = n

-- A result, or an error at one of the lines `first + 1` to `last`.
abbrev pub Settled {ℓ} : {A : Type ℓ} → ℕ → ℕ → Outcome A → Type 0
Settled first last (ok a) = Unit {0}
Settled first last (err e) = (first < line_of_error e) × (line_of_error e ≤ last)
Settled first last panicked = ⊥

Settled-bind {ℓ κ} :
    {A : Type ℓ} {B : Type κ} (m n : ℕ) (o : Outcome A) (f : A → Outcome B)
    → Settled m n o
    → ((a : A) → Settled m n (f a))
    → Settled m n (o >>= f)
Settled-bind m n (ok a) f h k = k a
Settled-bind m n (err e) f h k = h
Settled-bind m n panicked f h k = h

Settled-wider {ℓ} :
    {A : Type ℓ} (m n k l : ℕ) (o : Outcome A) → m ≤ k → l ≤ n → Settled k l o → Settled m n o
Settled-wider m n k l (ok a) h i s = tt
Settled-wider m n k l (err e) h i s = (omega (arith, h, s.0), omega (arith, i, s.1))
Settled-wider m n k l panicked h i s = s

Settled-strip : (m n : ℕ) (line kw : Text) → AllAscii kw → Settled m n (strip_rule_keyword line kw)
Settled-strip m n line kw h =
    subst (λ o. Settled m n o) (sym (strip_rule_keyword-strip_chars line kw h)) tt

Settled-if {ℓ} :
    {A : Type ℓ} (m n : ℕ) (b : Bool) (o q : Outcome A)
    → Settled m n o
    → Settled m n q
    → Settled m n (if b then o else q)
Settled-if m n true o q h k = h
Settled-if m n false o q h k = k

Settled-pushed {ℓ} :
    {A : Type ℓ} (n : ℕ) (o : Option A) (line : Text)
    → Settled n (suc n) (pushed o (invalid_ip (suc n) line))
Settled-pushed n none line = (omega arith, omega arith)
Settled-pushed n (some a) line = tt

Settled-found_or {ℓ κ} :
    {A : Type ℓ} {B : Type κ} (m n : ℕ) (o : Option A) (f : A → Outcome B) (q : Outcome B)
    → ((a : A) → Settled m n (f a))
    → Settled m n q
    → Settled m n (found_or o f q)
Settled-found_or m n none f q h k = k
Settled-found_or m n (some a) f q h k = h a

ip_line-Settled :
    (parse_net : Text → Option IpNet) (n : ℕ) (line : Text)
    → Settled n (suc n) (ip_line parse_net (suc n) line)
unfolding ip_line
ip_line-Settled parse_net n line =
    let net = parse_ip_line parse_net line in
    let cidr = λ (rest : Text). Settled-pushed n (parse_ip_line parse_net (first_arg rest)) line in
    Settled-if n (suc n) (is_skipped line) _ _ tt (
      Settled-bind n (suc n) (strip_rule_keyword line (text "IP-CIDR")) _
        (Settled-strip n (suc n) line (text "IP-CIDR") (AllAscii-is_ascii (text "IP-CIDR") refl))
        λ found. Settled-found_or n (suc n) found _ _ cidr (
          Settled-bind n (suc n) (strip_rule_keyword line (text "IP-CIDR6")) _
            (Settled-strip n (suc n) line (text "IP-CIDR6")
              (AllAscii-is_ascii (text "IP-CIDR6") refl))
            λ found6. Settled-found_or n (suc n) found6 _ _ cidr (
              Settled-if n (suc n) (line_is_rule_keyword line non_ip_rule_prefixes) _ _ tt (
                Settled-found_or n (suc n) net _ _ (λ a. tt)
                  (Settled-if n (suc n) (has_comma line) _ _ (omega arith, omega arith)
                    (omega arith, omega arith))))))

parse_lines-Settled {ℓ} :
    {A : Type ℓ} (line_of : ℕ → Text → Outcome (Option A))
    → ((n : ℕ) (line : Text) → Settled n (suc n) (line_of (suc n) line))
    → (idx : ℕ) (raws : List Text) → Settled idx (idx + length raws) (parse_lines line_of idx raws)
unfolding parse_lines
parse_lines-Settled line_of h idx [] = tt
parse_lines-Settled line_of h idx (raw ∷ raws) =
    let last = idx + suc (length raws) in
    Settled-bind idx last (line_of (suc idx) (trim raw)) _
      (Settled-wider idx last idx (suc idx) _ (omega arith) (omega arith) (h idx (trim raw)))
      λ found.
        Settled-bind idx last (parse_lines line_of (suc idx) raws) _
          (Settled-wider idx last (suc idx) (suc idx + length raws) _ (omega arith) (omega arith)
            (parse_lines-Settled line_of h (suc idx) raws))
          λ more. tt

-- Whatever the text is, `parse_ip_list` does not panic: it gives networks, or an error with the number of one
-- of the text's lines.
pub parse_ip_list-Settled :
    (parse_net : Text → Option IpNet) (input : Text)
    → Settled 0 (length (lines_from [] input)) (parse_ip_list parse_net input)
unfolding parse_ip_list
parse_ip_list-Settled parse_net input =
    Settled-wider 0 (length (lines_from [] input)) 0 (0 + length (lines_from [] input)) _
      (omega arith) (omega arith)
      (parse_lines-Settled (ip_line parse_net) (ip_line-Settled parse_net) 0 (lines_from [] input))
