-- ===== src/Tests/Group.antt =====
-- Instances of the theorems at concrete inputs: control/src/group.rs.
use mathlib.Core.List.Perm
use mathlib.Core.List.{Perm}
use dae_rs.Prelude.{
  ℕ, ◌≡◌, ◌+◌, refl, inl, inr, true, false, List, [], ◌∷◌, none, some, if◌then◌else◌, ◌==◌, ltb,
}
use dae_rs.Text.{text}
use dae_rs.Group.{
  is_alive, GroupDialer, GroupNode, new_group, min_avg10, fixed, ordered_candidates,
  in_group_cooldown, Attempt, connected, failed, node_error, cooling_down, ok, err, try_dial,
  dial_loop, group_all_dead_cooldown,
}
use dae_rs.Group.Alive.{AliveAt, ordered_candidates-AliveAt}
use dae_rs.Group.Dial.{AllDead, pass_end, try_dial-FailedPass, try_dial-falls_back}

abbrev fast : GroupNode
fast = record { name = text "fast"; alive = true; dead_until = none; last_latency_ms = 20 }

abbrev slow : GroupNode
slow = record { name = text "slow"; alive = true; dead_until = none; last_latency_ms = 300 }

abbrev two : GroupDialer
two = new_group (text "two") (slow ∷ fast ∷ []) min_avg10

abbrev in_place : List ℕ → List ℕ
in_place is = is

-- Only the second node is alive.
abbrev half_dead : GroupDialer
half_dead =
    new_group (text "half_dead") (record slow { alive = false; dead_until = some 9 } ∷ fast ∷ [])
      min_avg10

ordered_candidates-AliveAt_example : AliveAt 5 half_dead.nodes 1
unfolding ordered_candidates is_alive
ordered_candidates-AliveAt_example =
    ordered_candidates-AliveAt in_place (λ is i m. m) 5 half_dead 1 (fast, refl, refl) 1 (inl refl)

-- A dial takes a second; here none connects.
abbrev all_fail : ℕ → ℕ → ℕ × Attempt ℕ ℕ
all_fail i now = (now + 1_000_000_000, failed i)

-- Here node 1 connects.
abbrev one_works : ℕ → ℕ → ℕ × Attempt ℕ ℕ
one_works i now = (now + 1_000_000_000, if i == 1 then connected 7 else failed i)

abbrev in_order : GroupDialer
in_order = new_group (text "in_order") (slow ∷ fast ∷ []) fixed

abbrev after : GroupDialer
after = (try_dial all_fail in_place 5 in_order).0

try_dial-FailedPass_example :
    AllDead after.nodes (ordered_candidates in_place 5 in_order)
    × (try_dial all_fail in_place 9_000_000_000 after ≡ (
        if ltb 9_000_000_000
          (pass_end all_fail 5 (ordered_candidates in_place 5 in_order) + group_all_dead_cooldown)
        then (after, err cooling_down)
        else dial_loop all_fail after 9_000_000_000
            (ordered_candidates in_place 9_000_000_000 after)
            none))
unfolding try_dial in_group_cooldown
try_dial-FailedPass_example =
    try_dial-FailedPass all_fail in_place 5 in_order after (node_error 1) 9_000_000_000 refl refl

try_dial-falls_back_example :
    (c : ℕ) × (g' : GroupDialer) × (try_dial one_works in_place 5 in_order ≡ (g', ok c))
    × (g'.all_dead_until ≡ none)
unfolding in_group_cooldown ordered_candidates
try_dial-falls_back_example =
    try_dial-falls_back one_works in_place 5 in_order 1 refl (inr (inl refl)) (λ t. (7, refl))
