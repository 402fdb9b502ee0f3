-- ===== src/Group.antt =====
-- control/src/group.rs: `GroupNode` and `GroupDialer`. A node is referred to by its place in
-- `nodes`. Times (`Instant`) are nanoseconds and arguments; what the dialer of a node does
-- (another process, over the network) is a parameter, and so is the shuffle of the crate fastrand.
use dae_rs.Prelude.{
  ℕ, zero, suc, ◌+◌, ◌-◌, ◌*◌, ◌/◌, ◌%◌, ◌^◌, Bool, true, false, not, List, [], ◌∷◌, ◌++◌, Option,
  none, some, ltb, leb, ◌==◌, if◌then◌else◌, get_elem?,
}
use dae_rs.Text.{Text, is_empty}
pub mod Order
pub mod Dial
pub mod Alive

abbrev pub node_dead_cooldown : ℕ
node_dead_cooldown = 60_000_000_000

abbrev pub group_all_dead_cooldown : ℕ
group_all_dead_cooldown = 10_000_000_000

abbrev pub u64_max : ℕ
u64_max = 2 ^ 64 - 1

pub record GroupNode : Type 0 where
  pub name : Text
  pub alive : Bool
  pub dead_until : Option ℕ
  pub last_latency_ms : ℕ

pub data PolicyType : Type 0 where
  fixed random min min_avg10 min_moving_avg : PolicyType

pub record GroupDialer : Type 0 where
  pub name : Text
  pub nodes : List GroupNode
  pub policy : PolicyType
  pub all_dead_until : Option ℕ

abbrev pub new_node : Text → GroupNode
new_node name = record { name = name; alive = true; dead_until = none; last_latency_ms = 0 }

abbrev pub new_group : Text → List GroupNode → PolicyType → GroupDialer
new_group name nodes policy = record {
  name = name;
  nodes = nodes;
  policy = policy;
  all_dead_until = none;
}

unfoldable pub is_alive : ℕ → GroupNode → Bool
is_alive now n =
    if n.alive then true else elim n.dead_until [ none ↦ true | some deadline ↦ leb deadline now ]

unfoldable pub mark_alive : ℕ → GroupNode → GroupNode
mark_alive latency_ms n = record n { alive = true; dead_until = none; last_latency_ms = latency_ms }

unfoldable pub mark_dead : ℕ → GroupNode → GroupNode
mark_dead now n = record n { alive = false; dead_until = some (now + node_dead_cooldown) }

unfoldable pub in_group_cooldown : ℕ → GroupDialer → Bool
in_group_cooldown now g = elim g.all_dead_until [ none ↦ false | some deadline ↦ ltb now deadline ]

unfoldable pub enter_group_cooldown : ℕ → GroupDialer → GroupDialer
enter_group_cooldown now g = record g { all_dead_until = some (now + group_all_dead_cooldown) }

unfoldable pub clear_group_cooldown : GroupDialer → GroupDialer
clear_group_cooldown g = record g { all_dead_until = none }

-- `nodes.iter().filter(..)`, by place.
unfoldable pub alive_from : ℕ → ℕ → List GroupNode → List ℕ
unfolding is_alive
alive_from now i [] = []
alive_from now i (n ∷ ns) =
    let rest = alive_from now (suc i) ns in if is_alive now n then i ∷ rest else rest

unfoldable pub all_from : ℕ → List GroupNode → List ℕ
all_from i [] = []
all_from i (n ∷ ns) = i ∷ all_from (suc i) ns

unfoldable pub pool : ℕ → List GroupNode → List ℕ
unfolding alive_from all_from is_empty
pool now ns = if is_empty (alive_from now 0 ns) then all_from 0 ns else alive_from now 0 ns

-- The key of the latency policies: an unknown latency sorts last.
unfoldable pub latency_key : List GroupNode → ℕ → ℕ
latency_key ns i = elim (get_elem? ns i) [
  | none ↦ u64_max
  | some n ↦ if n.last_latency_ms == 0 then u64_max else n.last_latency_ms
]

-- `sort_by`, a stable sort, as an insertion sort.
unfoldable pub insert_by : (ℕ → ℕ) → ℕ → List ℕ → List ℕ
insert_by key i [] = i ∷ []
insert_by key i (j ∷ js) =
    let later = j ∷ insert_by key i js in if leb (key i) (key j) then i ∷ j ∷ js else later

unfoldable pub sort_by : (ℕ → ℕ) → List ℕ → List ℕ
unfolding insert_by
sort_by key [] = []
sort_by key (i ∷ is) = insert_by key i (sort_by key is)

module _ (shuffle : List ℕ → List ℕ) where
  unfoldable pub by_policy : PolicyType → List GroupNode → List ℕ → List ℕ
  unfolding sort_by latency_key
  by_policy fixed ns is = is
  by_policy random ns is = shuffle is
  by_policy min ns is = sort_by (latency_key ns) is
  by_policy min_avg10 ns is = sort_by (latency_key ns) is
  by_policy min_moving_avg ns is = sort_by (latency_key ns) is

  unfoldable pub ordered_candidates : ℕ → GroupDialer → List ℕ
  unfolding by_policy pool
  ordered_candidates now g = by_policy g.policy g.nodes (pool now g.nodes)

  unfoldable pub current_node : ℕ → GroupDialer → Option GroupNode
  unfolding ordered_candidates
  current_node now g = elim (ordered_candidates now g) [ [] ↦ none | i ∷ is ↦ get_elem? g.nodes i ]

  unfoldable pub current_node_name : ℕ → GroupDialer → Option Text
  unfolding current_node
  current_node_name now g = elim (current_node now g) [ none ↦ none | some n ↦ some n.name ]

-- `node` is written through the reference.
unfoldable pub update_node : (GroupNode → GroupNode) → ℕ → List GroupNode → List GroupNode
update_node f i [] = []
update_node f zero (n ∷ ns) = f n ∷ ns
update_node f (suc i) (n ∷ ns) = n ∷ update_node f i ns

pub data Attempt (Conn Error : Type 0) : Type 0 where
  connected : Conn → Attempt Conn Error
  failed : Error → Attempt Conn Error

pub data DialError (Error : Type 0) : Type 0 where
  cooling_down no_candidates : DialError Error
  node_error : Error → DialError Error

pub data Dialed (Conn Error : Type 0) : Type 0 where
  ok : Conn → Dialed Conn Error
  err : DialError Error → Dialed Conn Error

abbrev pub last_error : {Error : Type 0} → Option Error → DialError Error
last_error none = no_candidates
last_error (some e) = node_error e

-- A dial of node `i` begun at `now`: when it ends, and how.
module _ {Conn Error : Type 0} (dial : ℕ → ℕ → ℕ × Attempt Conn Error) where
  abbrev pub set_node : GroupDialer → (GroupNode → GroupNode) → ℕ → GroupDialer
  set_node g f i = record g { nodes = update_node f i g.nodes }

  unfoldable pub dial_loop :
      GroupDialer → ℕ → List ℕ → Option Error → GroupDialer × Dialed Conn Error
  unfolding enter_group_cooldown clear_group_cooldown mark_alive mark_dead update_node
  dial_loop g now [] last_err = (enter_group_cooldown now g, err (last_error last_err))
  dial_loop g now (i ∷ is) last_err =
      let ended = (dial i now).0 in
      elim ((dial i now).1) [
        | connected c ↦ (
          clear_group_cooldown (set_node g (mark_alive ((ended - now) / 1_000_000 % 2 ^ 64)) i),
          ok c,
        )
        | failed e ↦ dial_loop (set_node g (mark_dead ended) i) ended is (some e)
      ]

  -- `try_dial` and `try_udp_dial` differ in the dial that they make.
  unfoldable pub try_dial : (List ℕ → List ℕ) → ℕ → GroupDialer → GroupDialer × Dialed Conn Error
  unfolding in_group_cooldown dial_loop ordered_candidates
  try_dial shuffle now g =
      if in_group_cooldown now g
      then (g, err cooling_down)
      else dial_loop g now (ordered_candidates shuffle now g) none
