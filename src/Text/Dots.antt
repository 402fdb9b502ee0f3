-- ===== src/Text/Dots.antt =====
-- Domain names: the text after each dot, and `split('.')`.
use dae_rs.Prelude.{◌≡◌, refl, List, [], ◌∷◌, arith, ◌==◌, if◌then◌else◌}
use dae_rs.Text.Equality.{any}
use dae_rs.Text.{Text, text_eq, ends_with, split_pieces, split}

-- What follows each `.` of the text, from left to right.
unfoldable pub after_dots : Text → List Text
after_dots [] = []
after_dots (c ∷ cs) = let rest = after_dots cs in if c == b'.' then cs ∷ rest else rest

-- A text ends with `.` and a value exactly if the value follows one of its dots.
pub ends_with-dot : (q v : Text) → ends_with q (b'.' ∷ v) ≡ any (λ r. text_eq r v) (after_dots q)
unfolding ends_with text_eq any after_dots
ends_with-dot [] v = refl
ends_with-dot (c ∷ cs) v = ground (arith, ends_with-dot cs v)

split_pieces-injective :
    (s t : Text)
    → (split_pieces b'.' s).0 ≡ (split_pieces b'.' t).0
    → (split_pieces b'.' s).1 ≡ (split_pieces b'.' t).1
    → s ≡ t
unfolding split_pieces
split_pieces-injective [] [] e f = refl
split_pieces-injective [] (d ∷ ds) e f = ground arith
split_pieces-injective (c ∷ cs) [] e f = ground arith
split_pieces-injective (c ∷ cs) (d ∷ ds) e f = ground (arith, split_pieces-injective cs ds)

pub split-injective : (s t : Text) → split b'.' s ≡ split b'.' t → s ≡ t
unfolding split
split-injective s t e = split_pieces-injective s t (cc) (cc)
