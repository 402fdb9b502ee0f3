-- ===== src/Ruleset/IpSet.antt =====
-- control/src/ruleset/compiled.rs: `CompiledIpSet`. An `Ipv4Net` or `Ipv6Net` of the crate ipnet
-- is what its accessors `addr()`, `network()` and `prefix_len()` return; an address is a number.
use dae_rs.Prelude.{ℕ, ◌+◌, ◌-◌, ◌%◌, ◌^◌, Bool, List, [], ◌∷◌, ◌==◌, if◌then◌else◌}
use dae_rs.Ruleset.Ranges.{Range, merge_ranges, contains_in_ranges}
pub mod Laws

pub record Net : Type 0 where
  pub addr : ℕ
  pub network : ℕ
  pub prefix_len : ℕ

pub data IpNet : Type 0 where
  v4 v6 : Net → IpNet

pub data IpAddr : Type 0 where
  addr4 addr6 : ℕ → IpAddr

pub record CompiledIpSet : Type 0 where
  pub v4_ranges : List Range
  pub v6_ranges : List Range

-- `wrapping_add` of u32 and of u128. The amount of a shift wraps at the width, as in the release
-- profile, so that a network of prefix length 0 ends where it begins; with overflow checks, the
-- shift by the full width panics instead.
pub ipv4_range_end : Net → ℕ
ipv4_range_end n =
    let host_bits = 32 - n.prefix_len in
    if host_bits == 0 then n.network else (n.network + (2 ^ (host_bits % 32) - 1)) % 2 ^ 32

pub ipv6_range_end : Net → ℕ
ipv6_range_end n =
    let host_bits = 128 - n.prefix_len in
    if host_bits == 0 then n.network else (n.network + (2 ^ (host_bits % 128) - 1)) % 2 ^ 128

-- `IpNet::new(ip, 32)` and `IpNet::new(ip, 128)`.
abbrev pub host4 : ℕ → IpNet
host4 ip = v4 (record { addr = ip; network = ip; prefix_len = 32 })

abbrev pub host6 : ℕ → IpNet
host6 ip = v6 (record { addr = ip; network = ip; prefix_len = 128 })

-- What the loop of `compile` pushes on `v4` and on `v6`.
pub ranges4 : List IpNet → List Range
ranges4 [] = []
ranges4 (v4 n ∷ ns) = record { first = n.network; last = ipv4_range_end n } ∷ ranges4 ns
ranges4 (v6 n ∷ ns) = ranges4 ns

pub ranges6 : List IpNet → List Range
ranges6 [] = []
ranges6 (v4 n ∷ ns) = ranges6 ns
ranges6 (v6 n ∷ ns) = record { first = n.network; last = ipv6_range_end n } ∷ ranges6 ns

unfoldable pub compile : List IpNet → CompiledIpSet
unfolding ranges4 ranges6 ipv4_range_end ipv6_range_end merge_ranges
compile nets = record {
  v4_ranges = merge_ranges (ranges4 nets);
  v6_ranges = merge_ranges (ranges6 nets);
}

unfoldable pub contains : CompiledIpSet → IpAddr → Bool
unfolding contains_in_ranges
contains s (addr4 ip) = contains_in_ranges s.v4_ranges ip
contains s (addr6 ip) = contains_in_ranges s.v6_ranges ip
