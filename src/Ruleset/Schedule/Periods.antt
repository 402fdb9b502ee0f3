-- ===== src/Ruleset/Schedule/Periods.antt =====
-- Which periods are read, and what they are.
use dae_rs.Prelude.{
  ℕ, ◌+◌, ◌*◌, ◌%◌, ◌^◌, ◌<◌, ◌≡◌, refl, sym, ap, ◌∙◌, subst, Bool, true, false, ◌&&◌, List, [],
  ◌∷◌, ◌++◌, Option, none, some, ltb, ◌==◌, if◌then◌else◌, arith, Bool-cases, inl, inr,
  append_assoc, append-nil, lt→ltb, ltb→lt,
}
use dae_rs.Text.{Text, is_empty, trim}
use dae_rs.Text.Numbers.{from_str_radix}
use dae_rs.Ruleset.Schedule.{
  ScheduleError, Checked, ok, err, ◌>>=◌, map_err, guard, is_ascii_digit, unit_secs, checked_u64,
  period_loop, parse_period, bad_number, illegal_unit, expected_number, empty_period, not_positive,
}

-- Whole minutes, in 64 bits.
abbrev IsMinutes : ℕ → Type 0
IsMinutes d = ((k : ℕ) × (d ≡ 60 * k)) × (d < 2 ^ 64)

-- A result, where there is one, has this property.
abbrev Ensures {ℓ} : {A : Type ℓ} → (A → Type 0) → Checked A → Type 0
Ensures P (ok a) = P a
Ensures P (err e) = Unit {0}

Ensures-bind {ℓ κ} :
    {A : Type ℓ} {B : Type κ} (P : A → Type 0) (Q : B → Type 0) (p : Checked A) (f : A → Checked B)
    → Ensures P p
    → ((a : A) → P a → Ensures Q (f a))
    → Ensures Q (p >>= f)
Ensures-bind P Q (ok a) f h k = k a h
Ensures-bind P Q (err e) f h k = tt

Ensures-if {ℓ} :
    {A : Type ℓ} (P : A → Type 0) (b : Bool) (p q : Checked A)
    → Ensures P p
    → Ensures P q
    → Ensures P (if b then p else q)
Ensures-if P true p q h k = h
Ensures-if P false p q h k = k

Ensures-map_err {ℓ} :
    {A : Type ℓ} (o : Option A) (e : ScheduleError) → Ensures (λ (a : A). Unit {0}) (map_err o e)
Ensures-map_err none e = tt
Ensures-map_err (some a) e = tt

abbrev Sixty : ℕ → Type 0
Sixty u = (k : ℕ) × (u ≡ 60 * k)

unit_secs-Sixty : (c : ℕ) → Ensures Sixty (unit_secs c)
unfolding unit_secs
unit_secs-Sixty c =
    Ensures-if Sixty (c == b'd') (ok 86400) _ (1440, refl)
      (Ensures-if Sixty (c == b'h') (ok 3600) _ (60, refl)
        (Ensures-if Sixty (c == b'm') (ok 60) (err illegal_unit) (1, refl) tt))

checked_u64-IsMinutes : (n k : ℕ) → n ≡ 60 * k → Ensures IsMinutes (checked_u64 n)
unfolding checked_u64
checked_u64-IsMinutes n k e = elim (Bool-cases (ltb n (2 ^ 64))) [
  | inl l ↦ rw l ((k, e), ltb→lt n (2 ^ 64) l)
  | inr l ↦ rw l tt
]

times_sixty : (n u k : ℕ) → u ≡ 60 * k → n * u ≡ 60 * (n * k)
times_sixty n u k e = ap (λ v. n * v) e ∙ omega arith

period_loop-IsMinutes :
    (total : ℕ) (digits s : Text) → IsMinutes total → Ensures IsMinutes (period_loop total digits s)
unfolding period_loop
period_loop-IsMinutes total digits [] h = Ensures-if IsMinutes (is_empty digits) (ok total) _ h (
    Ensures-bind _ IsMinutes (map_err (from_str_radix (2 ^ 64) 10 digits) bad_number) _
      (Ensures-map_err (from_str_radix (2 ^ 64) 10 digits) bad_number) λ num u. tt)
period_loop-IsMinutes total digits (c ∷ cs) h =
    Ensures-if IsMinutes (is_ascii_digit c) (period_loop total (digits ++ c ∷ []) cs) _
      (period_loop-IsMinutes total (digits ++ c ∷ []) cs h)
      (Ensures-if IsMinutes (is_empty digits) (err expected_number) _ tt (
        Ensures-bind _ IsMinutes (map_err (from_str_radix (2 ^ 64) 10 digits) bad_number) _
          (Ensures-map_err (from_str_radix (2 ^ 64) 10 digits) bad_number)
          λ num u. Ensures-bind Sixty IsMinutes (unit_secs c) _ (unit_secs-Sixty c) λ secs w.
            Ensures-bind IsMinutes IsMinutes (checked_u64 (num * secs)) _
              (checked_u64-IsMinutes (num * secs) (num * w.0) (times_sixty num secs w.0 w.1))
              λ product v.
                Ensures-bind IsMinutes IsMinutes (checked_u64 (total + product)) _
                  (checked_u64-IsMinutes (total + product) (h.0.0 + v.0.0)
                    (omega (arith, h.0.1, v.0.1)))
                  λ sum x. period_loop-IsMinutes sum [] cs x))

abbrev Positive : ℕ → Type 0
Positive d = (0 < d) × IsMinutes d

Ensures-guard : (b : Bool) (e : ScheduleError) → Ensures (λ (u : Unit {0}). b ≡ false) (guard b e)
Ensures-guard true e = tt
Ensures-guard false e = refl

parse_period-Positive : (spec : Text) → Ensures Positive (parse_period spec)
unfolding parse_period
parse_period-Positive spec =
    Ensures-bind _ Positive (guard (is_empty (trim spec)) empty_period) _
      (Ensures-guard (is_empty (trim spec)) empty_period)
      λ u e.
        Ensures-bind IsMinutes Positive (period_loop 0 [] (trim spec)) _
          (period_loop-IsMinutes 0 [] (trim spec) ((0, refl), omega arith))
          λ total h.
            Ensures-bind _ Positive (guard (total == 0) not_positive) _
              (Ensures-guard (total == 0) not_positive) λ v n. (ground (arith, n), h)

-- A period that is read is positive, a whole number of minutes, and in seconds an unsigned integer of 64 bits.
pub parse_period-IsMinutes :
    (spec : Text) (secs : ℕ)
    → parse_period spec ≡ ok secs
    → (0 < secs) × (secs % 60 ≡ 0) × (secs < 2 ^ 64)
parse_period-IsMinutes spec secs e =
    let h = subst (Ensures Positive) e (parse_period-Positive spec) in
    (h.0, omega (arith, h.1.0.1), h.1.1)

-- A number with its unit, as digits and a character.
pub record Part : Type 0 where
  pub digits : Text
  pub unit : ℕ
  pub num : ℕ
  pub secs : ℕ

abbrev all_digits : Text → Bool
all_digits [] = true
all_digits (c ∷ cs) = is_ascii_digit c && all_digits cs

abbrev pub IsPart : Part → Type 0
IsPart p =
    (is_empty p.digits ≡ false)
    × (all_digits p.digits ≡ true)
    × (from_str_radix (2 ^ 64) 10 p.digits ≡ some p.num)
    × (unit_secs p.unit ≡ ok p.secs)

abbrev pub AllParts : List Part → Type 0
AllParts [] = Unit {0}
AllParts (p ∷ ps) = IsPart p × AllParts ps

abbrev pub period_text : List Part → Text
period_text [] = []
period_text (p ∷ ps) = p.digits ++ p.unit ∷ period_text ps

abbrev pub sum_secs : List Part → ℕ
sum_secs [] = 0
sum_secs (p ∷ ps) = p.num * p.secs + sum_secs ps

unit_not_digit : (c secs : ℕ) → unit_secs c ≡ ok secs → is_ascii_digit c ≡ false
unfolding unit_secs
unit_not_digit c secs e = ground (arith, e)

period_loop-digit :
    (total : ℕ) (current : Text) (c : ℕ) (cs : Text)
    → is_ascii_digit c ≡ true
    → period_loop total current (c ∷ cs) ≡ period_loop total (current ++ c ∷ []) cs
unfolding period_loop
period_loop-digit total current c cs h = rw h refl

-- The digits are gathered.
period_loop-digits :
    (total : ℕ) (current digits rest : Text)
    → all_digits digits ≡ true
    → period_loop total current (digits ++ rest) ≡ period_loop total (current ++ digits) rest
period_loop-digits total current [] rest h =
    ap (λ (d : Text). period_loop total d rest) (sym (append-nil current))
period_loop-digits total current (c ∷ cs) rest h =
    period_loop-digit total current c (cs ++ rest) (ground (arith, h))
    ∙ period_loop-digits total (current ++ c ∷ []) cs rest (ground (arith, h))
    ∙ ap (λ (d : Text). period_loop total d rest) (append_assoc current (c ∷ []) cs)

checked_u64-small : (n : ℕ) → n < 2 ^ 64 → checked_u64 n ≡ ok n
unfolding checked_u64
checked_u64-small n h = rw (lt→ltb n (2 ^ 64) h) refl

period_loop-unit :
    (total : ℕ) (p : Part) (rest : Text)
    → IsPart p
    → total + p.num * p.secs < 2 ^ 64
    → period_loop total p.digits (p.unit ∷ rest) ≡ period_loop (total + p.num * p.secs) [] rest
unfolding period_loop
period_loop-unit total p rest h l =
    rw
      (
        unit_not_digit p.unit p.secs h.3,
        h.0,
        h.2,
        h.3,
        checked_u64-small (p.num * p.secs) (omega (arith, l)),
        checked_u64-small (total + p.num * p.secs) l,
      )
      refl

period_loop-period_text :
    (total : ℕ) (ps : List Part)
    → AllParts ps
    → total + sum_secs ps < 2 ^ 64
    → period_loop total [] (period_text ps) ≡ ok (total + sum_secs ps)
period_loop-period_text total [] h l = unfold period_loop is_empty in ap ok (omega arith)
period_loop-period_text total (p ∷ ps) h l =
    period_loop-digits total [] p.digits (p.unit ∷ period_text ps) h.0.1
    ∙ period_loop-unit total p (period_text ps) h.0 (omega (arith, l))
    ∙ period_loop-period_text (total + p.num * p.secs) ps h.1 (omega (arith, l))
    ∙ ap ok (omega arith)

-- A period of numbers, each with its unit, is read as the sum of its parts: each number is a text of digits
-- that is an unsigned integer of 64 bits, each unit one of `d`, `h` and `m`, and the sum is positive and
-- has 64 bits; there may be spaces around the whole.
pub parse_period-period_text :
    (spec : Text) (ps : List Part)
    → trim spec ≡ period_text ps
    → AllParts ps
    → 0 < sum_secs ps
    → sum_secs ps < 2 ^ 64
    → parse_period spec ≡ ok (sum_secs ps)
unfolding parse_period
parse_period-period_text spec [] e h k l = absurd (omega (arith, k))
parse_period-period_text spec (p ∷ ps) e h k l =
    rw
      (
        e,
        not_empty p.digits,
        period_loop-period_text 0 (p ∷ ps) h (omega (arith, l)),
        zero_plus,
        positive,
      )
      refl
  where
    not_empty : (d : Text) → is_empty (d ++ p.unit ∷ period_text ps) ≡ false
    not_empty [] = unfold is_empty in refl
    not_empty (c ∷ cs) = unfold is_empty in refl

    zero_plus : 0 + sum_secs (p ∷ ps) ≡ sum_secs (p ∷ ps)
    zero_plus = omega arith

    positive : (sum_secs (p ∷ ps) == 0) ≡ false
    positive = ground (arith, k)
