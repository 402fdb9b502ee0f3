-- ===== src/Ruleset/Lists/Ascii.antt =====
-- Prefixes of lines of ASCII characters, where a byte is a character.
use dae_rs.Prelude.{
  ℕ, zero, suc, ◌≤◌, ◌<◌, ◌≡◌, refl, ap, ◌∙◌, Bool, true, false, ◌&&◌, [], ◌∷◌, some, leb, leb→le,
  ◌==◌, length, take, arith, Bool-cases, inl, inr,
}
use dae_rs.Text.{Text, text_eq, to_ascii_lower, to_ascii_lowercase}
use dae_rs.Text.Utf8.{as_bytes}
use dae_rs.Ruleset.Lists.{ok, cons_some, slice_to, slice_is, eq_ignore_ascii_case, has_prefix}
use dae_rs.Ruleset.Lists.Slices.{AllAscii, encode_char-ascii, slice_to-ascii}

-- The prefix, character by character.
unfoldable pub prefix_chars : Text → Text → Bool
unfolding to_ascii_lower
prefix_chars [] s = true
prefix_chars (k ∷ ks) [] = false
prefix_chars (k ∷ ks) (c ∷ cs) = to_ascii_lower c == to_ascii_lower k && prefix_chars ks cs

as_bytes-ascii : (s : Text) → AllAscii s → as_bytes s ≡ s
unfolding as_bytes
as_bytes-ascii [] h = refl
as_bytes-ascii (c ∷ cs) h = rw (encode_char-ascii c h.0, as_bytes-ascii cs h.1) refl

slice_to-take : (n : ℕ) (s : Text) → AllAscii s → n ≤ length s → slice_to n s ≡ some (take n s)
slice_to-take zero [] h l = unfold slice_to in refl
slice_to-take zero (c ∷ cs) h l = unfold slice_to in refl
slice_to-take (suc n) [] h l = absurd (omega (arith, l))
slice_to-take (suc n) (c ∷ cs) h l =
    slice_to-ascii n c cs h.0 ∙ ap (cons_some c) (slice_to-take n cs h.1 (omega (arith, l)))

prefix_chars-take :
    (p s : Text)
    → length p ≤ length s
    → eq_ignore_ascii_case (take (length p) s) p ≡ prefix_chars p s
unfolding eq_ignore_ascii_case text_eq to_ascii_lowercase prefix_chars
prefix_chars-take [] s h = refl
prefix_chars-take (k ∷ ks) [] h = absurd (omega (arith, h))
prefix_chars-take (k ∷ ks) (c ∷ cs) h = ground (arith, prefix_chars-take ks cs (omega (arith, h)))

prefix_chars-short : (p s : Text) → length s < length p → prefix_chars p s ≡ false
unfolding prefix_chars
prefix_chars-short [] s h = absurd (omega (arith, h))
prefix_chars-short (k ∷ ks) [] h = refl
prefix_chars-short (k ∷ ks) (c ∷ cs) h = ground (arith, prefix_chars-short ks cs (omega (arith, h)))

pub has_prefix-prefix_chars : (s p : Text) → AllAscii s → has_prefix s p ≡ ok (prefix_chars p s)
unfolding has_prefix slice_is
has_prefix-prefix_chars s p h =
    let bytes = as_bytes-ascii s h in
    elim (Bool-cases (leb (length p) (length s))) [
      | inl l ↦
          let long = leb→le (length p) (length s) l in
          rw (bytes, l, slice_is, slice_to-take (length p) s h long)
            (ap ok (prefix_chars-take p s long))
      | inr l ↦ rw (bytes, l, prefix_chars-short p s (ground (arith, l))) refl
    ]
