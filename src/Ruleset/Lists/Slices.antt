-- ===== src/Ruleset/Lists/Slices.antt =====
-- Where the slices of list.rs end: a byte that is a comma is a character.
use dae_rs.Prelude.{
  ℕ, zero, suc, ◌-◌, ◌≤◌, ◌<◌, ◌≡◌, refl, sym, ap, ◌∙◌, subst, Bool, true, false, ◌&&◌, List, [],
  ◌∷◌, ◌++◌, Option, none, some, ltb, ◌==◌, if◌then◌else◌, length, get_elem?, arith, Bool-cases,
  inl, inr, ltb→lt, lt→ltb, ==_iff,
}
use dae_rs.Text.{Text, text_eq, trim, to_ascii_lower, to_ascii_lowercase}
use dae_rs.Text.Utf8.{encode_char, as_bytes}
use dae_rs.Ruleset.Lists.{
  ok, cons_some, slice_to, slice_is, eq_ignore_ascii_case, is_byte, drop_chars, strip_rule_keyword,
}

-- The bytes of a character that is not ASCII.
abbrev AllHigh : List ℕ → Type 0
AllHigh [] = Unit {0}
AllHigh (b ∷ bs) = (128 ≤ b) × AllHigh bs

encode_char-AllHigh : (c : ℕ) → 128 ≤ c → AllHigh (encode_char c)
unfolding encode_char
encode_char-AllHigh c h = elim (Bool-cases (ltb c 0x80)) [
  | inl a ↦ absurd (omega (arith, ltb→lt c 0x80 a, h))
  | inr a ↦ elim (Bool-cases (ltb c 0x800)) [
    | inl b ↦ rw (a, b) (omega arith, (omega arith, tt))
    | inr b ↦ elim (Bool-cases (ltb c 0x1_0000)) [
      | inl d ↦ rw (a, b, d) (omega arith, (omega arith, (omega arith, tt)))
      | inr d ↦ rw (a, b, d) (omega arith, (omega arith, (omega arith, (omega arith, tt))))
    ]
  ]
]

pub encode_char-ascii : (c : ℕ) → c < 128 → encode_char c ≡ c ∷ []
unfolding encode_char
encode_char-ascii c h = ground (arith, h)

-- A comma behind such bytes.
comma_behind :
    (xs ys : List ℕ) (n : ℕ)
    → AllHigh xs
    → is_byte b',' (get_elem? (xs ++ ys) n) ≡ true
    → (length xs ≤ n) × (is_byte b',' (get_elem? ys (n - length xs)) ≡ true)
comma_behind [] ys n h e =
    (omega arith, subst (λ m. is_byte b',' (get_elem? ys m) ≡ true) (omega arith) e)
comma_behind (x ∷ xs) ys zero h e = absurd (omega (arith, h.0, (==_iff x b',').0 e))
comma_behind (x ∷ xs) ys (suc n) h e =
    let behind = comma_behind xs ys n h.1 e in
    (
      omega (arith, behind.0),
      subst (λ m. is_byte b',' (get_elem? ys m) ≡ true) (omega arith) behind.1,
    )

abbrev comma_at : ℕ → Text → Bool
comma_at n s = is_byte b',' (get_elem? (as_bytes s) n)

abbrev pub width : ℕ → ℕ
width c = length (encode_char c)

encode_char-width : (c : ℕ) → 0 < width c
unfolding encode_char
encode_char-width c = ground arith

pub slice_to-cons :
    (n c : ℕ) (cs : Text)
    → 0 < n
    → width c ≤ n
    → slice_to n (c ∷ cs) ≡ cons_some c (slice_to (n - width c) cs)
unfolding slice_to
slice_to-cons n c cs h w = ground (arith, h, w)

-- A comma behind a character.
comma_at-cons :
    (n c : ℕ) (cs : Text)
    → comma_at (suc n) (c ∷ cs) ≡ true
    → (width c ≤ suc n) × (comma_at (suc n - width c) cs ≡ true)
unfolding as_bytes
comma_at-cons n c cs e = elim (Bool-cases (ltb c 0x80)) [
  | inl a ↦ of_ascii (encode_char-ascii c (ltb→lt c 0x80 a))
  | inr a ↦
      comma_behind (encode_char c) (as_bytes cs) (suc n) (encode_char-AllHigh c (ground arith)) e
]
  where
    of_ascii : encode_char c ≡ c ∷ [] → (width c ≤ suc n) × (comma_at (suc n - width c) cs ≡ true)
    of_ascii k =
        let w : width c ≡ 1 = ap (λ (l : List ℕ). length l) k in
        let e' : comma_at n cs ≡ true =
          subst (λ (l : List ℕ). is_byte b',' (get_elem? (l ++ as_bytes cs) (suc n)) ≡ true) k e in
        (omega (arith, w), subst (λ m. comma_at m cs ≡ true) (omega (arith, w)) e')

-- A comma is where a slice may end.
pub slice_to-comma_at :
    (n : ℕ) (s : Text) → comma_at n s ≡ true → (t : Text) × (slice_to n s ≡ some t)
slice_to-comma_at n [] e = unfold as_bytes in absurd (cc e)
slice_to-comma_at zero (c ∷ cs) e = ([], unfold slice_to in refl)
slice_to-comma_at (suc n) (c ∷ cs) e =
    let behind = comma_at-cons n c cs e in
    let rest = slice_to-comma_at (suc n - width c) cs behind.1 in
    (c ∷ rest.0, slice_to-cons (suc n) c cs (omega arith) behind.0 ∙ ap (cons_some c) rest.1)

-- The keyword and the comma, character by character.
unfoldable pub strip_chars : Text → Text → Option Text
unfolding to_ascii_lower trim
strip_chars [] [] = none
strip_chars [] (c ∷ cs) = if c == b',' then some (trim cs) else none
strip_chars (k ∷ ks) [] = none
strip_chars (k ∷ ks) (c ∷ cs) =
    let rest = strip_chars ks cs in if to_ascii_lower c == to_ascii_lower k then rest else none

abbrev pub AllAscii : Text → Type 0
AllAscii [] = Unit {0}
AllAscii (c ∷ cs) = (c < 128) × AllAscii cs

abbrev pub is_ascii : Text → Bool
is_ascii [] = true
is_ascii (c ∷ cs) = ltb c 128 && is_ascii cs

pub AllAscii-is_ascii : (s : Text) → is_ascii s ≡ true → AllAscii s
AllAscii-is_ascii [] e = tt
AllAscii-is_ascii (c ∷ cs) e = (ground (arith, e), AllAscii-is_ascii cs (ground (arith, e)))

-- What the source does where the slice is `t`.
abbrev stripped : Text → Text → Text → Option Text
stripped kw line t =
    if eq_ignore_ascii_case t kw then some (trim (drop_chars (0 ∷ kw) line)) else none

comma_at-zero : (c : ℕ) (cs : Text) → comma_at 0 (c ∷ cs) ≡ (c == b',')
unfolding as_bytes
comma_at-zero c cs = elim (Bool-cases (ltb c 0x80)) [
  | inl a ↦ rw (encode_char-ascii c (ltb→lt c 0x80 a)) refl
  | inr a ↦ elim (Bool-cases (comma_at 0 (c ∷ cs))) [
    | inl e ↦
        let behind =
          comma_behind (encode_char c) (as_bytes cs) 0 (encode_char-AllHigh c (ground arith)) e in
        absurd (omega (arith, behind.0, encode_char-width c))
    | inr e ↦ e ∙ ground arith
  ]
]

comma_at-ascii : (n c : ℕ) (cs : Text) → c < 128 → comma_at (suc n) (c ∷ cs) ≡ comma_at n cs
unfolding as_bytes
comma_at-ascii n c cs h = rw (encode_char-ascii c h) refl

-- A character that is a keyword's character, up to case, is ASCII.
lower_ascii : (c k : ℕ) → k < 128 → (to_ascii_lower c == to_ascii_lower k) ≡ true → c < 128
unfolding to_ascii_lower
lower_ascii c k h e = ground (arith, h, e)

-- Where there is no comma at the keyword's end.
strip_chars-none :
    (kw line : Text) → AllAscii kw → comma_at (length kw) line ≡ false → strip_chars kw line ≡ none
unfolding strip_chars
strip_chars-none [] [] h e = refl
strip_chars-none [] (c ∷ cs) h e = ground (arith, sym (comma_at-zero c cs) ∙ e)
strip_chars-none (k ∷ ks) [] h e = refl
strip_chars-none (k ∷ ks) (c ∷ cs) h e = elim (Bool-cases (to_ascii_lower c == to_ascii_lower k)) [
  | inl same ↦
      let a = lower_ascii c k h.0 same in
      rw same (strip_chars-none ks cs h.1 (sym (comma_at-ascii (length ks) c cs a) ∙ e))
  | inr differ ↦ rw differ refl
]

drop_chars-first : (a b : ℕ) (ks cs : Text) → drop_chars (a ∷ ks) cs ≡ drop_chars (b ∷ ks) cs
drop_chars-first a b ks [] = refl
drop_chars-first a b ks (c ∷ cs) = refl

some_injective : (s t : Text) → ◌≡◌ {A = Option Text} (some s) (some t) → s ≡ t
some_injective s t e = cc

pub slice_to-ascii :
    (n c : ℕ) (cs : Text) → c < 128 → slice_to (suc n) (c ∷ cs) ≡ cons_some c (slice_to n cs)
slice_to-ascii n c cs h =
    let w : width c ≡ 1 = ap (λ (l : List ℕ). length l) (encode_char-ascii c h) in
    let m : suc n - width c ≡ n = omega (arith, w) in
    slice_to-cons (suc n) c cs (omega arith) (omega (arith, w))
    ∙ ap (λ m. cons_some c (slice_to m cs)) m

-- One character more.
stripped-cons :
    (k c : ℕ) (ks cs r : Text)
    → stripped (k ∷ ks) (c ∷ cs) (c ∷ r)
      ≡ (if to_ascii_lower c == to_ascii_lower k then stripped ks cs r else none)
unfolding eq_ignore_ascii_case text_eq to_ascii_lowercase
stripped-cons k c ks cs r =
    ground (arith, ap (λ (t : Text). some (trim t)) (drop_chars-first k 0 ks cs))

strip_chars-stripped :
    (kw line t : Text)
    → AllAscii kw
    → comma_at (length kw) line ≡ true
    → slice_to (length kw) line ≡ some t
    → stripped kw line t ≡ strip_chars kw line
unfolding strip_chars
strip_chars-stripped [] [] t h e k = unfold as_bytes in absurd (cc e)
strip_chars-stripped [] (c ∷ cs) t h e k =
    let at : t ≡ [] = unfold slice_to in sym (some_injective [] t k) in
    subst (λ t. stripped [] (c ∷ cs) t ≡ strip_chars [] (c ∷ cs)) (sym at)
      (unfold eq_ignore_ascii_case text_eq to_ascii_lowercase strip_chars in
        ground (arith, sym (comma_at-zero c cs) ∙ e))
strip_chars-stripped (k ∷ ks) [] t h e l = unfold as_bytes in absurd (cc e)
strip_chars-stripped (k ∷ ks) (c ∷ cs) t h e l =
    let n = length ks in
    let behind = comma_at-cons n c cs e in
    let part = slice_to-comma_at (suc n - width c) cs behind.1 in
    let at : c ∷ part.0 ≡ t =
      some_injective (c ∷ part.0) t
        (sym (slice_to-cons (suc n) c cs (omega arith) behind.0 ∙ ap (cons_some c) part.1) ∙ l) in
    subst (λ t. stripped (k ∷ ks) (c ∷ cs) t ≡ strip_chars (k ∷ ks) (c ∷ cs)) at
      (stripped-cons k c ks cs part.0
        ∙ later part.0 part.1 (λ e' m. strip_chars-stripped ks cs part.0 h.1 e' m))
  where
    later :
        (r : Text)
        → slice_to (suc (length ks) - width c) cs ≡ some r
        → (comma_at (length ks) cs ≡ true
            → slice_to (length ks) cs ≡ some r
            → stripped ks cs r ≡ strip_chars ks cs)
        → (if to_ascii_lower c == to_ascii_lower k then stripped ks cs r else none)
          ≡ strip_chars (k ∷ ks) (c ∷ cs)
    later r m go = elim (Bool-cases (to_ascii_lower c == to_ascii_lower k)) [
      | inr differ ↦ rw differ refl
      | inl same ↦
          let a = lower_ascii c k h.0 same in
          let w : width c ≡ 1 = ap (λ (l : List ℕ). length l) (encode_char-ascii c a) in
          let at : suc (length ks) - width c ≡ length ks = omega (arith, w) in
          rw same (
            go (sym (comma_at-ascii (length ks) c cs a) ∙ e)
              (subst (λ m. slice_to m cs ≡ some r) at m))
    ]

get_elem?-comma_at : (n : ℕ) (s : Text) → comma_at n s ≡ true → n < length (as_bytes s)
get_elem?-comma_at n s e = below (as_bytes s) n e
  where
    below : (bs : List ℕ) (n : ℕ) → is_byte b',' (get_elem? bs n) ≡ true → n < length bs
    below [] n e = absurd (cc e)
    below (b ∷ bs) zero e = omega arith
    below (b ∷ bs) (suc n) e = omega (arith, below bs n e)

-- For a keyword of ASCII characters, whatever the line is, `strip_rule_keyword` does not panic, and finds
-- what stands behind the keyword, in any case of its letters, and a comma.
pub strip_rule_keyword-strip_chars :
    (line kw : Text) → AllAscii kw → strip_rule_keyword line kw ≡ ok (strip_chars kw line)
unfolding strip_rule_keyword slice_is
strip_rule_keyword-strip_chars line kw h = elim (Bool-cases (comma_at (length kw) line)) [
  | inl e ↦
      let slice = slice_to-comma_at (length kw) line e in
      let long =
        lt→ltb (length kw) (length (as_bytes line)) (get_elem?-comma_at (length kw) line e) in
      rw (long, e, slice_is, slice.1) (ap ok (strip_chars-stripped kw line slice.0 h e slice.1))
  | inr e ↦
      let none_left = strip_chars-none kw line h e in
      elim (Bool-cases (ltb (length kw) (length (as_bytes line)))) [
        | inl l ↦ rw (l, e, none_left) refl
        | inr l ↦ rw (l, none_left) refl
      ]
]
