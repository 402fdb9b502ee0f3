-- ===== src/Routing/Lowering/Tries.antt =====
-- control/src/routing/matcher.rs: `hash_cidrs` and `find_or_create_lpm_trie`.
pub mod Laws
pub mod Masked
use dae_rs.Prelude.{
  ℕ, ◌+◌, ◌*◌, ◌/◌, ◌%◌, ◌^◌, Bool, true, false, ◌&&◌, List, [], ◌∷◌, ◌++◌, Option, none, some,
  if◌then◌else◌, ◌==◌, length, get_elem?,
}
use Prim.Native.Nat.{bit_xor}
use dae_rs.Ruleset.IpSet.{Net, IpNet, v4, v6}
use dae_rs.Routing.Expression.{Parsed, ok, err, index_panic}

-- `h ^= b; h = h.wrapping_mul(FNV_PRIME);`
unfoldable pub hash_byte : ℕ → ℕ → ℕ
hash_byte h b = bit_xor h b * 1099511628211 % 2 ^ 64

-- The bytes of a number, the high one first.
unfoldable pub hash_octets : ℕ → ℕ → ℕ → ℕ
unfolding hash_byte
hash_octets ℕ.zero h n = h
hash_octets (ℕ.suc k) h n = hash_octets k (hash_byte h (n / 256 ^ k % 256)) n

unfoldable pub hash_cidr : ℕ → IpNet → ℕ
unfolding hash_octets hash_byte
hash_cidr h (v4 n) = hash_octets 4 (hash_byte h n.prefix_len) n.addr
hash_cidr h (v6 n) = hash_octets 16 (hash_byte h n.prefix_len) n.addr

unfoldable pub hash_from : ℕ → List IpNet → ℕ
unfolding hash_cidr
hash_from h [] = h
hash_from h (c ∷ cs) = hash_from (hash_cidr h c) cs

unfoldable pub hash_cidrs : List IpNet → ℕ
unfolding hash_from
hash_cidrs cidrs = hash_from 14695981039346656037 cidrs

-- `==` of networks compares the address and the prefix length.
unfoldable pub net_eq : IpNet → IpNet → Bool
net_eq (v4 m) (v4 n) = m.addr == n.addr && m.prefix_len == n.prefix_len
net_eq (v6 m) (v6 n) = m.addr == n.addr && m.prefix_len == n.prefix_len
net_eq (v4 m) (v6 n) = false
net_eq (v6 m) (v4 n) = false

unfoldable pub nets_eq : List IpNet → List IpNet → Bool
unfolding net_eq
nets_eq [] [] = true
nets_eq [] (n ∷ ns) = false
nets_eq (m ∷ ms) [] = false
nets_eq (m ∷ ms) (n ∷ ns) = net_eq m n && nets_eq ms ns

-- The vector `lpm_tries`, and the map `lpm_dedup` from hashes to indices, newest entry first.
pub record Tries : Type 0 where
  pub lpm_tries : List (List IpNet)
  pub lpm_dedup : List (ℕ × ℕ)

unfoldable pub find_hash : ℕ → List (ℕ × ℕ) → Option ℕ
find_hash h [] = none
find_hash h (e ∷ es) = if h == e.0 then some e.1 else find_hash h es

-- The new trie, with the index it gets.
unfoldable pub push_trie : List IpNet → ℕ → Tries → Tries × ℕ
push_trie cidrs hash t = (
  record {
    lpm_tries = t.lpm_tries ++ cidrs ∷ [];
    lpm_dedup = (hash, length t.lpm_tries) ∷ t.lpm_dedup;
  },
  length t.lpm_tries,
)

-- `lpm_tries[index] == cidrs`, which panics where there is no such trie.
unfoldable pub reuse : List IpNet → ℕ → ℕ → Tries → Option (List IpNet) → Parsed (Tries × ℕ)
unfolding nets_eq push_trie
reuse cidrs hash index t none = err index_panic
reuse cidrs hash index t (some nets) =
    if nets_eq nets cidrs then ok (t, index) else ok (push_trie cidrs hash t)

unfoldable pub find_or_create : List IpNet → ℕ → Tries → Option ℕ → Parsed (Tries × ℕ)
unfolding reuse push_trie
find_or_create cidrs hash t none = ok (push_trie cidrs hash t)
find_or_create cidrs hash t (some index) = reuse cidrs hash index t (get_elem? t.lpm_tries index)

unfoldable pub find_or_create_lpm_trie : List IpNet → Tries → Parsed (Tries × ℕ)
unfolding hash_cidrs find_hash find_or_create
find_or_create_lpm_trie cidrs t =
    let hash = hash_cidrs cidrs in find_or_create cidrs hash t (find_hash hash t.lpm_dedup)
