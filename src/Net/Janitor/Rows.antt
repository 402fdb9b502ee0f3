-- ===== src/Net/Janitor/Rows.antt =====
-- Pressure mode ends at the third low usage in a row.
use dae_rs.Prelude.{
  ℕ, ◌≡◌, refl, sym, ap, ◌∙◌, Bool, true, false, not, ◌&&◌, ◌||◌, List, [], ◌∷◌, Bool-cases, inl,
  inr,
}
use dae_rs.Net.Janitor.{
  Pressure, Outcome, lock_failed, scan_failed, usage_failed, usage, detect, janitor_round,
}

-- Whether the mode holds after every round.
unfoldable pub stays : {U : Type 0} → (U → Bool) → (U → Bool) → List (Outcome U) → Pressure → Bool
unfolding janitor_round
stays below_exit above_enter [] s = true
stays below_exit above_enter (o ∷ os) s =
    let after = janitor_round below_exit above_enter o s in
    after.in_pressure && stays below_exit above_enter os after

-- Which usages that were read are low; a round that fails reads none.
unfoldable pub lows : {U : Type 0} → (U → Bool) → List (Outcome U) → List Bool
lows below_exit [] = []
lows below_exit (lock_failed ∷ os) = lows below_exit os
lows below_exit (scan_failed ∷ os) = lows below_exit os
lows below_exit (usage_failed ∷ os) = lows below_exit os
lows below_exit (usage u ∷ os) = below_exit u ∷ lows below_exit os

-- Three in a row.
unfoldable pub three : List Bool → Bool
three [] = false
three (a ∷ []) = false
three (a ∷ b ∷ []) = false
three (a ∷ b ∷ c ∷ bs) = (a && b && c) || three (b ∷ c ∷ bs)

three-false : (bs : List Bool) → three (false ∷ bs) ≡ three bs
unfolding three
three-false [] = refl
three-false (a ∷ []) = refl
three-false (a ∷ b ∷ bs) = refl

three-true-false : (bs : List Bool) → three (true ∷ false ∷ bs) ≡ three bs
unfolding three
three-true-false [] = refl
three-true-false (a ∷ bs) = three-false (a ∷ bs)

three-true-true : (bs : List Bool) → three (true ∷ true ∷ true ∷ bs) ≡ true
unfolding three
three-true-true bs = refl

three-true-true-false : (bs : List Bool) → three (true ∷ true ∷ false ∷ bs) ≡ three bs
unfolding three
three-true-true-false bs = three-true-false bs

abbrev rounds : ℕ → Pressure
rounds n = record { in_pressure = true; pressure_rounds = n }

-- The usages of the rounds that are counted already stand before those to come.
stays_lem :
    {U : Type 0} (below_exit above_enter : U → Bool) (os : List (Outcome U))
    → (stays below_exit above_enter os (rounds 0) ≡ not (three (lows below_exit os)))
      × (stays below_exit above_enter os (rounds 1) ≡ not (three (true ∷ lows below_exit os)))
      × (stays below_exit above_enter os (rounds 2)
          ≡ not (three (true ∷ true ∷ lows below_exit os)))
unfolding stays lows janitor_round detect
stays_lem below_exit above_enter [] = unfold three in (refl, refl, refl)
stays_lem below_exit above_enter (lock_failed ∷ os) = stays_lem below_exit above_enter os
stays_lem below_exit above_enter (scan_failed ∷ os) = stays_lem below_exit above_enter os
stays_lem below_exit above_enter (usage_failed ∷ os) = stays_lem below_exit above_enter os
stays_lem below_exit above_enter (usage u ∷ os) =
    let ih = stays_lem below_exit above_enter os in
    elim (Bool-cases (below_exit u)) [
      | inl low ↦ rw low (ih.1, ih.2, sym (ap not (three-true-true (lows below_exit os))))
      | inr high ↦ rw high (
        ih.0 ∙ sym (ap not (three-false (lows below_exit os))),
        ih.0 ∙ sym (ap not (three-true-false (lows below_exit os))),
        ih.0 ∙ sym (ap not (three-true-true-false (lows below_exit os))),
      )
    ]

-- From the round that enters pressure mode, whatever the rounds meet, the mode holds after every
-- one of them exactly if no three usages in a row, among those that were read, are below the
-- threshold of the exit.
pub stays-three :
    {U : Type 0} (below_exit above_enter : U → Bool) (u : U) (s : Pressure) (os : List (Outcome U))
    → s.in_pressure ≡ false
    → above_enter u ≡ true
    → stays below_exit above_enter (usage u ∷ os) s ≡ not (three (lows below_exit os))
unfolding stays janitor_round detect
stays-three below_exit above_enter u s os h e = rw (h, e) ((stays_lem below_exit above_enter os).0)
