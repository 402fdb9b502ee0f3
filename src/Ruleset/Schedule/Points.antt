-- ===== src/Ruleset/Schedule/Points.antt =====
-- The next trigger instants of periodic updates.
use native.Mathlib.Nat.{div-add-mod, mod-lt, zero-div}
use dae_rs.Prelude.{
  ℕ, ◌+◌, ◌-◌, ◌*◌, ◌/◌, ◌^◌, ◌≤◌, ◌<◌, ◌≡◌, refl, sym, ap, ◌∙◌, subst, Bool, true, false, List,
  max, if◌then◌else◌, arith, some, ◌∷◌,
}
use dae_rs.Text.{Text}
use dae_rs.Text.Equality.{text_eq_refl}
use dae_rs.Ruleset.Schedule.{
  next_period_point, add_duration, duration_max, Entry, period_of, last_success_of, unwrap_or,
  next_of, process_entry,
}

-- The steps from the base to the point.
abbrev pub steps : ℕ → ℕ → ℕ → ℕ
steps base period now = (now - base) / period + 1

next_period_point_lem :
    (latest base period now : ℕ)
    → 0 < period
    → steps base period now < 2 ^ 32
    → period * steps base period now ≤ duration_max
    → next_period_point latest base period now
      ≡ add_duration latest base (period * steps base period now)
unfolding next_period_point
next_period_point_lem latest base period now h k l = ground (arith, h, k, l)

add_duration-in_range :
    (latest at duration : ℕ)
    → at + duration ≤ latest
    → add_duration latest at duration ≡ some (at + duration)
add_duration-in_range latest at duration h = ground (arith, h)

-- What a round leaves: the map, and the entry's next point.
abbrev pub FollowsPeriod : Bool → ℕ → ℕ → Entry → List (Text × ℕ) → Entry × List (Text × ℕ) → Type 0
FollowsPeriod updated now period e last r =
    let base = if updated then now else unwrap_or (last_success_of e.name last) now in
    (unwrap_or (last_success_of e.name r.1) now ≡ base)
    × ((k : ℕ) × (r.0.next ≡ base + period * k))
    × (now < r.0.next)
    × (r.0.next ≤ max base now + period)

-- With `q` for the period's multiples that have passed.
point_after :
    (base period now : ℕ)
    → 0 < period
    → (now < base + period * steps base period now)
      × (base + period * steps base period now ≤ max base now + period)
point_after base period now h =
    let e = now - base in
    let split = div-add-mod e period in
    let less = mod-lt e h in
    let next : period * (e / period + 1) ≡ period * (e / period) + period = omega arith in
    (omega (arith, split, less, next), omega (arith, split, less, next))

-- The point of a base, where nothing is capped.
abbrev IsPoint : ℕ → ℕ → ℕ → ℕ → Type 0
IsPoint base period now next =
    ((k : ℕ) × (next ≡ base + period * k)) × (now < next) × (next ≤ max base now + period)

next_period_point-IsPoint :
    (latest base period now : ℕ)
    → 0 < period
    → steps base period now < 2 ^ 32
    → period * steps base period now ≤ duration_max
    → max base now + period ≤ latest
    → (next : ℕ) × (next_period_point latest base period now ≡ some next)
      × IsPoint base period now next
next_period_point-IsPoint latest base period now h k l room =
    let after = point_after base period now h in
    let n = period * steps base period now in
    (
      base + n,
      next_period_point_lem latest base period now h k l
          ∙ add_duration-in_range latest base n (omega (arith, after.1, room)),
      ((steps base period now, refl), after.0, after.1),
    )

steps_self : (now period : ℕ) → steps now period now ≡ 1
steps_self now period =
    let gone : now - now ≡ 0 = omega arith in
    ap (λ n. n / period + 1) gone ∙ ap (λ n. n + 1) (zero-div period)

one_step :
    (base now period : ℕ)
    → period * steps base period now ≤ duration_max
    → period * 1 ≤ duration_max
one_step base now period m =
    let next : period * ((now - base) / period + 1) ≡ period * ((now - base) / period) + period =
      omega arith in
    omega (arith, m, next)

-- For a period that is positive, where neither the count of steps nor the product is capped, and where the
-- instant one period after the later of the base and this moment can be represented, the round does not
-- panic: after a success the base is this moment and the next point one period later; after a failure
-- the base stays; and in both cases the next point is the first one after this moment that is a
-- multiple of the period behind the base, the last success (this moment, without one).
pub process_entry-period :
    (latest : ℕ) (next_time : ℕ → ℕ → ℕ) (updated : Bool) (now period : ℕ) (e : Entry)
    (last : List (Text × ℕ))
    → e.kind ≡ period_of period
    → 0 < period
    → steps (unwrap_or (last_success_of e.name last) now) period now < 2 ^ 32
    → period * steps (unwrap_or (last_success_of e.name last) now) period now ≤ duration_max
    → max (unwrap_or (last_success_of e.name last) now) now + period ≤ latest
    → (r : Entry × List (Text × ℕ)) × (process_entry latest next_time updated now e last ≡ some r)
      × FollowsPeriod updated now period e last r
unfolding process_entry next_of last_success_of
process_entry-period latest next_time true now period e last k h s m room =
    let one = steps_self now period in
    let base = unwrap_or (last_success_of e.name last) now in
    let (next, found, point) =
      next_period_point-IsPoint latest now period now h (omega (arith, one))
        (subst (λ n. period * n ≤ duration_max) (sym one) (one_step base now period m))
        (omega (arith, room)) in
    (
      (record e { next = next }, (e.name, now) ∷ last),
      rw (k, found) refl,
      rw (text_eq_refl e.name) (refl, point.0, point.1, point.2),
    )
process_entry-period latest next_time false now period e last k h s m room =
    let base = unwrap_or (last_success_of e.name last) now in
    let (next, found, point) = next_period_point-IsPoint latest base period now h s m room in
    ((record e { next = next }, last), rw (k, found) refl, (refl, point.0, point.1, point.2))
