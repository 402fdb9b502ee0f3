-- ===== src/Group/Order.antt =====
-- Which nodes a group tries, and in which order.
use mathlib.Core.List.Perm
use mathlib.Core.List.{Perm}
use dae_rs.Prelude.{ℕ, ◌≤◌, ◌≡◌, List, [], ◌∷◌}
use dae_rs.Group.{GroupNode, PolicyType, fixed, random, latency_key}

-- Keys do not fall along the list.
abbrev KeysFrom : (ℕ → ℕ) → ℕ → List ℕ → Type 0
KeysFrom key b [] = Unit {0}
KeysFrom key b (i ∷ is) = (b ≤ key i) × KeysFrom key (key i) is

abbrev pub IsOrdered : (ℕ → ℕ) → List ℕ → Type 0
IsOrdered key is = KeysFrom key 0 is

-- What the policy promises of the order.
abbrev pub InOrder : PolicyType → List GroupNode → List ℕ → List ℕ → Type 0
InOrder fixed ns is candidates = candidates ≡ is
InOrder random ns is candidates = Unit {0}
InOrder _ ns is candidates = IsOrdered (latency_key ns) candidates
