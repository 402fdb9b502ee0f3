-- ===== src/Dns/Read.antt =====
-- Reading a message: a value, `None`, or a fault (an index out of bounds, which panics, or a loop
-- that the model's fuel does not see to its end). Bytes are numbers.
use dae_rs.Prelude.{
  ℕ, zero, suc, ◌+◌, ◌-◌, ◌*◌, ◌≤◌, ◌<◌, ◌≡◌, refl, ◌⊎◌, inl, inr, Bool, true, false, ◌&&◌, List,
  [], ◌∷◌, none, some, leb, if◌then◌else◌, length, get_elem?, take, drop, arith,
}

pub data Fault : Type 0 where
  out_of_bounds out_of_fuel : Fault

pub data Read {ℓ} (A : Type ℓ) : Type ℓ where
  value : A → Read A
  nothing : Read A
  crashed : Fault → Read A

infixl 5 ◌>>=◌ ◌>>◌
abbrev pub ◌>>=◌ {ℓ κ} : {A : Type ℓ} {B : Type κ} → Read A → (A → Read B) → Read B
value a >>= f = f a
nothing >>= f = nothing
crashed e >>= f = crashed e

abbrev pub ◌>>◌ {ℓ} : {B : Type ℓ} → Read (Unit {0}) → Read B → Read B
m >> k = m >>= λ _. k

pub Read-cases {ℓ} :
    {A : Type ℓ} (r : Read A)
    → ((a : A) × (r ≡ value a)) ⊎ (r ≡ nothing) ⊎ ((e : Fault) × (r ≡ crashed e))
Read-cases (value a) = inl (a, refl)
Read-cases nothing = inr (inl refl)
Read-cases (crashed e) = inr (inr (e, refl))

pub bind-bind {ℓ} :
    {A B C : Type ℓ} (m : Read A) (f : A → Read B) (g : B → Read C)
    → ((m >>= f) >>= g) ≡ (m >>= λ a. f a >>= g)
bind-bind (value a) f g = refl
bind-bind nothing f g = refl
bind-bind (crashed e) f g = refl

-- `buf[i]` and `&buf[from..to]`.
unfoldable pub index : List ℕ → ℕ → Read ℕ
index buf i = elim (get_elem? buf i) [ none ↦ crashed out_of_bounds | some b ↦ value b ]

unfoldable pub slice : List ℕ → ℕ → ℕ → Read (List ℕ)
slice buf from to =
    if leb from to && leb to (length buf)
    then value (take (to - from) (drop from buf))
    else crashed out_of_bounds

-- `u16::from_be_bytes` and `u32::from_be_bytes` of the bytes at a place.
unfoldable pub be16 : List ℕ → ℕ → Read ℕ
unfolding index
be16 buf p = do a ← index buf p; b ← index buf (p + 1); value (a * 256 + b)

unfoldable pub be32 : List ℕ → ℕ → Read ℕ
unfolding be16
be32 buf p = do a ← be16 buf p; b ← be16 buf (p + 2); value (a * 65536 + b)

-- Of a value, the predicate; there is no fault.
abbrev pub Ensures {ℓ} : {A : Type ℓ} → (A → Type 0) → Read A → Type 0
Ensures P (value a) = P a
Ensures P nothing = Unit {0}
Ensures P (crashed e) = ⊥

pub Ensures-bind {ℓ κ} :
    {A : Type ℓ} {B : Type κ} (P : A → Type 0) (Q : B → Type 0) (m : Read A) (f : A → Read B)
    → Ensures P m
    → ((a : A) → P a → Ensures Q (f a))
    → Ensures Q (m >>= f)
Ensures-bind P Q (value a) f p q = q a p
Ensures-bind P Q nothing f p q = tt
Ensures-bind P Q (crashed e) f p q = p

abbrev pub Anything {ℓ} : {A : Type ℓ} → A → Type 0
Anything a = Unit {0}

get_elem?-some : (buf : List ℕ) (i : ℕ) → i < length buf → (b : ℕ) × (get_elem? buf i ≡ some b)
get_elem?-some [] i h = elim h [ ]
get_elem?-some (b ∷ bs) zero h = (b, refl)
get_elem?-some (b ∷ bs) (suc i) h = get_elem?-some bs i (omega arith)

-- Reads within the message have a value.
index_value : (buf : List ℕ) (i : ℕ) → i < length buf → (b : ℕ) × (index buf i ≡ value b)
unfolding index
index_value buf i h = ground (arith, get_elem?-some buf i h)

be16_value : (buf : List ℕ) (i : ℕ) → i + 2 ≤ length buf → (w : ℕ) × (be16 buf i ≡ value w)
unfolding be16
be16_value buf i h =
    let (a, e) = index_value buf i (omega arith) in
    let (b, f) = index_value buf (i + 1) (omega arith) in (a * 256 + b, rw (e, f))

be32_value : (buf : List ℕ) (i : ℕ) → i + 4 ≤ length buf → (w : ℕ) × (be32 buf i ≡ value w)
unfolding be32
be32_value buf i h =
    let (a, e) = be16_value buf i (omega arith) in
    let (b, f) = be16_value buf (i + 2) (omega arith) in (a * 65536 + b, rw (e, f))

module _ {ℓ} {B : Type ℓ} (Q : B → Type 0) (buf : List ℕ) (i : ℕ) (f : ℕ → Read B) where
  pub Ensures-index : i < length buf → ((b : ℕ) → Ensures Q (f b)) → Ensures Q (index buf i >>= f)
  Ensures-index h q = let (b, e) = index_value buf i h in rw e (q b)

  pub Ensures-be16 : i + 2 ≤ length buf → ((b : ℕ) → Ensures Q (f b)) → Ensures Q (be16 buf i >>= f)
  Ensures-be16 h q = let (b, e) = be16_value buf i h in rw e (q b)

  pub Ensures-be16_eq :
      i + 2 ≤ length buf
      → ((b : ℕ) → be16 buf i ≡ value b → Ensures Q (f b))
      → Ensures Q (be16 buf i >>= f)
  Ensures-be16_eq h q = let (b, e) = be16_value buf i h in rw e (q b e)

  pub Ensures-be32 : i + 4 ≤ length buf → ((b : ℕ) → Ensures Q (f b)) → Ensures Q (be32 buf i >>= f)
  Ensures-be32 h q = let (b, e) = be32_value buf i h in rw e (q b)

-- A branch is settled if both sides are, each under its test.
pub Ensures-if {ℓ} :
    {A : Type ℓ} (P : A → Type 0) (b : Bool) (r s : Read A)
    → (b ≡ true → Ensures P r)
    → (b ≡ false → Ensures P s)
    → Ensures P (if b then r else s)
Ensures-if P true r s p q = p refl
Ensures-if P false r s p q = q refl
