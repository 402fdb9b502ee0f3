-- ===== src/Text/Order.antt =====
-- `Vec<String>::sort`, `dedup` and `binary_search`, by the order of `str` (that of its bytes, which
-- is that of its code points).
pub mod Search
use dae_rs.Prelude.{
  ℕ, zero, suc, ◌+◌, ◌-◌, ◌/◌, ◌≤◌, ◌<◌, ◌≡◌, refl, ap, ◌∙◌, Bool, true, false, ◌&&◌, ◌||◌, List,
  [], ◌∷◌, Option, none, some, arith, ltb, ◌==◌, if◌then◌else◌, length, get_elem?,
}
use dae_rs.Text.Equality.{any, mem_text, text_eq_iff}
use dae_rs.Text.{Text, text_eq}

pub text_lt : Text → Text → Bool
text_lt s [] = false
text_lt [] (d ∷ ds) = true
text_lt (c ∷ cs) (d ∷ ds) = ltb c d || (c == d && text_lt cs ds)

pub insert_text : Text → List Text → List Text
insert_text s [] = s ∷ []
insert_text s (t ∷ ts) =
    let later = t ∷ insert_text s ts in if text_lt t s then later else s ∷ t ∷ ts

unfoldable pub sort : List Text → List Text
unfolding insert_text text_lt
sort [] = []
sort (s ∷ ss) = insert_text s (sort ss)

-- Drops each text that is equal to the one kept before it.
pub dedup_onto : Text → List Text → List Text
dedup_onto kept [] = kept ∷ []
dedup_onto kept (s ∷ ss) =
    let other = kept ∷ dedup_onto s ss in
    let again = dedup_onto kept ss in if text_eq kept s then again else other

unfoldable pub dedup : List Text → List Text
unfolding dedup_onto text_eq
dedup [] = []
dedup (s ∷ ss) = dedup_onto s ss

-- Halves the interval up to the first index that is not before the place looked for.
pub bisect : ℕ → (ℕ → Bool) → ℕ → ℕ → ℕ
bisect zero before lo hi = lo
bisect (suc fuel) before lo hi =
    let mid = (lo + hi) / 2 in
    let right = bisect fuel before (mid + 1) hi in
    let left = bisect fuel before lo mid in
    if ltb lo hi then (if before mid then right else left) else lo

pub is_below : Option Text → Text → Bool
is_below none q = false
is_below (some s) q = text_lt s q

pub is_text : Option Text → Text → Bool
is_text none q = false
is_text (some s) q = text_eq q s

-- `binary_search(q).is_ok()`.
unfoldable pub binary_search : List Text → Text → Bool
unfolding bisect is_below is_text text_lt text_eq
binary_search ss q =
    is_text (get_elem? ss (bisect (length ss) (λ i. is_below (get_elem? ss i) q) 0 (length ss))) q

text_lt_asymm : (s t : Text) → text_lt s t ≡ true → text_lt t s ≡ false
unfolding text_lt
text_lt_asymm [] [] h = refl
text_lt_asymm [] (d ∷ ds) h = refl
text_lt_asymm (c ∷ cs) [] h = ground arith
text_lt_asymm (c ∷ cs) (d ∷ ds) h = ground (arith, text_lt_asymm cs ds)

text_le_trans : (s t u : Text) → text_lt t s ≡ false → text_lt u t ≡ false → text_lt u s ≡ false
unfolding text_lt
text_le_trans [] t u h k = refl
text_le_trans (c ∷ cs) [] u h k = ground arith
text_le_trans (c ∷ cs) (d ∷ ds) [] h k = ground arith
text_le_trans (c ∷ cs) (d ∷ ds) (e ∷ es) h k = ground (arith, text_le_trans cs ds es)

text_le_antisymm : (s t : Text) → text_lt s t ≡ false → text_lt t s ≡ false → s ≡ t
unfolding text_lt
text_le_antisymm [] [] h k = refl
text_le_antisymm [] (d ∷ ds) h k = ground arith
text_le_antisymm (c ∷ cs) [] h k = ground arith
text_le_antisymm (c ∷ cs) (d ∷ ds) h k = ground (arith, text_le_antisymm cs ds)

any-insert :
    (p : Text → Bool) (s : Text) (ts : List Text) → any p (insert_text s ts) ≡ any p (s ∷ ts)
unfolding any insert_text
any-insert p s [] = refl
any-insert p s (t ∷ ts) = ground (arith, any-insert p s ts)

pub any-sort : (p : Text → Bool) (ss : List Text) → any p (sort ss) ≡ any p ss
unfolding any sort
any-sort p [] = refl
any-sort p (s ∷ ss) = any-insert p s (sort ss) ∙ ap (λ b. p s || b) (any-sort p ss)

any-dedup_onto :
    (p : Text → Bool) (s : Text) (ss : List Text) → any p (dedup_onto s ss) ≡ any p (s ∷ ss)
unfolding any dedup_onto
any-dedup_onto p s [] = refl
any-dedup_onto p s (t ∷ ts) =
    ground (arith, text_eq_iff s t, any-dedup_onto p s ts, any-dedup_onto p t ts)

pub any-dedup : (p : Text → Bool) (ss : List Text) → any p (dedup ss) ≡ any p ss
unfolding dedup
any-dedup p [] = refl
any-dedup p (s ∷ ss) = any-dedup_onto p s ss

-- No text of the list is below the bound.
abbrev NoneBelow : Text → List Text → Type 0
NoneBelow b [] = Unit {0}
NoneBelow b (s ∷ ss) = (text_lt s b ≡ false) × NoneBelow b ss

abbrev pub IsSorted : List Text → Type 0
IsSorted [] = Unit {0}
IsSorted (s ∷ ss) = NoneBelow s ss × IsSorted ss

NoneBelow-mono :
    (b c : Text) (ss : List Text) → text_lt c b ≡ false → NoneBelow c ss → NoneBelow b ss
NoneBelow-mono b c [] h n = tt
NoneBelow-mono b c (s ∷ ss) h n = (text_le_trans b c s h n.0, NoneBelow-mono b c ss h n.1)

NoneBelow-insert :
    (b s : Text) (ts : List Text)
    → text_lt s b ≡ false
    → NoneBelow b ts
    → NoneBelow b (insert_text s ts)
unfolding insert_text
NoneBelow-insert b s [] h n = (h, tt)
NoneBelow-insert b s (t ∷ ts) h n = ground (arith, NoneBelow-insert b s ts)

IsSorted-insert : (s : Text) (ts : List Text) → IsSorted ts → IsSorted (insert_text s ts)
unfolding insert_text
IsSorted-insert s [] o = (tt, tt)
IsSorted-insert s (t ∷ ts) o =
    ground (
      arith,
      IsSorted-insert s ts,
      NoneBelow-insert t s ts,
      text_lt_asymm t s,
      NoneBelow-mono s t ts,
    )

IsSorted-sort : (ss : List Text) → IsSorted (sort ss)
unfolding sort
IsSorted-sort [] = tt
IsSorted-sort (s ∷ ss) = IsSorted-insert s (sort ss) (IsSorted-sort ss)

NoneBelow-dedup_onto :
    (b s : Text) (ss : List Text)
    → text_lt s b ≡ false
    → NoneBelow b ss
    → NoneBelow b (dedup_onto s ss)
unfolding dedup_onto
NoneBelow-dedup_onto b s [] h n = (h, tt)
NoneBelow-dedup_onto b s (t ∷ ts) h n =
    ground (arith, NoneBelow-dedup_onto b s ts, NoneBelow-dedup_onto b t ts)

IsSorted-dedup_onto :
    (s : Text) (ss : List Text) → NoneBelow s ss → IsSorted ss → IsSorted (dedup_onto s ss)
unfolding dedup_onto
IsSorted-dedup_onto s [] n o = (tt, tt)
IsSorted-dedup_onto s (t ∷ ts) n o =
    ground (arith, IsSorted-dedup_onto s ts, IsSorted-dedup_onto t ts, NoneBelow-dedup_onto s t ts)

pub IsSorted-dedup : (ss : List Text) → IsSorted ss → IsSorted (dedup ss)
unfolding dedup
IsSorted-dedup [] o = tt
IsSorted-dedup (s ∷ ss) o = IsSorted-dedup_onto s ss o.0 o.1
