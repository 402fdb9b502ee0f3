-- ===== src/Text.antt =====
-- What the sources use of `str` and `String`: a text is the list of its code points.
use Prim.Native.Char.{code}
use Prim.Native.String.{String}
use dae_rs.Prelude.{
  ℕ, zero, suc, ◌+◌, Bool, true, false, ◌&&◌, ◌||◌, List, [], ◌∷◌, ◌++◌, Option, none, some, ltb,
  leb, ◌==◌, if◌then◌else◌,
}
pub mod Equality
pub mod Order
pub mod Dots
pub mod Utf8
pub mod Numbers
pub mod Address

abbrev pub Text : Type 0
Text = List ℕ

-- A literal.
abbrev pub text : String → Text
text String.[] = []
text (String.◌∷◌ c s) = code c ∷ text s

unfoldable pub text_eq : Text → Text → Bool
text_eq [] [] = true
text_eq [] (d ∷ ds) = false
text_eq (c ∷ cs) [] = false
text_eq (c ∷ cs) (d ∷ ds) = c == d && text_eq cs ds

unfoldable pub is_empty {ℓ} : {A : Type ℓ} → List A → Bool
is_empty [] = true
is_empty (x ∷ xs) = false

-- `char::is_whitespace`: the property White_Space of Unicode.
unfoldable pub is_whitespace : ℕ → Bool
is_whitespace c =
    (leb 9 c && leb c 13)
    || c == 0x20
    || c == 0x85
    || c == 0xa0
    || c == 0x1680
    || (leb 0x2000 c && leb c 0x200a)
    || c == 0x2028
    || c == 0x2029
    || c == 0x202f
    || c == 0x205f
    || c == 0x3000

-- `trim_start_matches` and `trim_end_matches` with a test on characters.
unfoldable pub trim_start_by : (ℕ → Bool) → Text → Text
trim_start_by p [] = []
trim_start_by p (c ∷ cs) = let rest = trim_start_by p cs in if p c then rest else c ∷ cs

unfoldable pub trim_end_by : (ℕ → Bool) → Text → Text
unfolding is_empty
trim_end_by p [] = []
trim_end_by p (c ∷ cs) =
    let rest = trim_end_by p cs in if p c && is_empty rest then [] else c ∷ rest

unfoldable pub trim : Text → Text
unfolding trim_start_by trim_end_by is_whitespace
trim s = trim_end_by is_whitespace (trim_start_by is_whitespace s)

unfoldable pub to_ascii_lower : ℕ → ℕ
to_ascii_lower c = if leb b'A' c && leb c b'Z' then c + 32 else c

unfoldable pub to_ascii_lowercase : Text → Text
unfolding to_ascii_lower
to_ascii_lowercase [] = []
to_ascii_lowercase (c ∷ cs) = to_ascii_lower c ∷ to_ascii_lowercase cs

unfoldable pub strip_prefix : Text → Text → Option Text
strip_prefix [] s = some s
strip_prefix (p ∷ ps) [] = none
strip_prefix (p ∷ ps) (c ∷ cs) = if p == c then strip_prefix ps cs else none

unfoldable pub starts_with : Text → Text → Bool
starts_with s [] = true
starts_with [] (p ∷ ps) = false
starts_with (c ∷ cs) (p ∷ ps) = p == c && starts_with cs ps

unfoldable pub ends_with : Text → Text → Bool
unfolding text_eq
ends_with [] s = text_eq [] s
ends_with (c ∷ cs) s = text_eq (c ∷ cs) s || ends_with cs s

-- `str::contains` on a text.
unfoldable pub contains_text : Text → Text → Bool
unfolding starts_with
contains_text [] s = starts_with [] s
contains_text (c ∷ cs) s = starts_with (c ∷ cs) s || contains_text cs s

-- `split_once` at a character.
unfoldable pub split_once : ℕ → Text → Option (Text × Text)
split_once d [] = none
split_once d (c ∷ cs) =
    let rest = split_once d cs in
    let later : Option (Text × Text) = elim rest [ none ↦ none | some (a, b) ↦ some (c ∷ a, b) ] in
    if c == d then some ([], cs) else later

-- `split` at a character: the first piece, and the others.
unfoldable pub split_pieces : ℕ → Text → Text × List Text
split_pieces d [] = ([], [])
split_pieces d (c ∷ cs) =
    let rest = split_pieces d cs in if c == d then ([], rest.0 ∷ rest.1) else (c ∷ rest.0, rest.1)

unfoldable pub split : ℕ → Text → List Text
unfolding split_pieces
split d s = let r = split_pieces d s in r.0 ∷ r.1

unfoldable pub join : Text → List Text → Text
join sep [] = []
join sep (p ∷ []) = p
join sep (p ∷ q ∷ ps) = p ++ (sep ++ join sep (q ∷ ps))
