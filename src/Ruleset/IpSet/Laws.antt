-- ===== src/Ruleset/IpSet/Laws.antt =====
-- The compiled set answers as a linear scan that compares prefix bits.
use dae_rs.Prelude.{
  ℕ, zero, suc, ◌+◌, ◌-◌, ◌*◌, ◌/◌, ◌%◌, ◌^◌, ◌≤◌, ◌<◌, ◌≡◌, refl, ap, ap₂, ◌∙◌, Bool, false, ◌||◌,
  List, [], ◌∷◌, arith, ◌==◌,
}
use native.Mathlib.Nat.{
  add-zero, add-suc, pow-zero, pow-suc, div-add-mod, div-lt_iff_lt-mul, mod-eq_of_lt,
  le-div_iff_mul-le,
}
use dae_rs.Ruleset.Ranges.Merge.{covers, in_any, AllValid, merge_ranges_sound}
use dae_rs.Ruleset.Ranges.Search.{contains_in_ranges-in_any}
use dae_rs.Ruleset.Ranges.{Range, contains_in_ranges, merge_ranges}
use dae_rs.Ruleset.IpSet.{
  Net, IpNet, v4, v6, IpAddr, addr4, addr6, ipv4_range_end, ipv6_range_end, ranges4, ranges6,
  compile, contains,
}

-- The first `prefix_len` of `width` bits agree.
unfoldable pub same_prefix : ℕ → Net → ℕ → Bool
same_prefix width n ip = n.network / 2 ^ (width - n.prefix_len) == ip / 2 ^ (width - n.prefix_len)

unfoldable pub net_contains : IpNet → IpAddr → Bool
unfolding same_prefix
net_contains (v4 n) (addr4 ip) = same_prefix 32 n ip
net_contains (v6 n) (addr6 ip) = same_prefix 128 n ip
net_contains (v4 n) (addr6 ip) = false
net_contains (v6 n) (addr4 ip) = false

unfoldable pub scan : List IpNet → IpAddr → Bool
unfolding net_contains same_prefix
scan [] ip = false
scan (n ∷ ns) ip = net_contains n ip || scan ns ip

-- What the crate ipnet documents of its values: a prefix is at most as long as an address, the
-- host bits of `network()` are zero, and `network()` is an address. The prefix length 0, for which the
-- shift overflows, is left out.
abbrev pub IsNet : ℕ → Net → Type 0
IsNet width n =
    (n.prefix_len ≤ width)
    × (n.network % 2 ^ (width - n.prefix_len) ≡ 0)
    × (n.network < 2 ^ width)
    × (0 < n.prefix_len)

abbrev pub IsIpNet : IpNet → Type 0
IsIpNet (v4 n) = IsNet 32 n
IsIpNet (v6 n) = IsNet 128 n

abbrev pub AllNets : List IpNet → Type 0
AllNets [] = Unit {0}
AllNets (n ∷ ns) = IsIpNet n × AllNets ns

two_pow-add : (a b : ℕ) → 2 ^ (a + b) ≡ 2 ^ a * 2 ^ b
two_pow-add a zero = rw (add-zero a, pow-zero 2) (omega arith)
two_pow-add a (suc b) =
    rw (add-suc a b, pow-suc 2 (a + b), pow-suc 2 b, two_pow-add a b) (omega arith)

two_pow-pos : (a : ℕ) → 0 < 2 ^ a
two_pow-pos zero = rw (pow-zero 2) (omega arith)
two_pow-pos (suc a) = rw (pow-suc 2 a) (omega (arith, two_pow-pos a))

module _ (net h : ℕ) (pos : 0 < h) (aligned : net % h ≡ 0) where
  multiple : net ≡ h * (net / h)
  multiple = omega (arith, div-add-mod net h)

  -- An aligned block of addresses ends before the next multiple, so that its end does not wrap.
  block_end-lt : (k : ℕ) → net < k * h → net + (h - 1) < k * h
  block_end-lt k l =
      let below : net / h < k = (div-lt_iff_lt-mul pos).1 l in
      let room : (net / h + 1) * h ≤ k * h = grind arith in omega (arith, multiple)

  block_covers :
      (ip : ℕ) → covers (record { first = net; last = net + (h - 1) }) ip ≡ (net / h == ip / h)
  unfolding covers
  block_covers ip = ground (
    arith,
    multiple,
    le-div_iff_mul-le {k = h} {x = net / h} {y = ip} pos,
    div-lt_iff_lt-mul {k = h} {x = ip} {y = net / h + 1} pos,
  )

end-lt :
    (width : ℕ) (n : Net) → IsNet width n → n.network + (2 ^ (width - n.prefix_len) - 1) < 2 ^ width
end-lt width n w =
    let split : 2 ^ width ≡ 2 ^ n.prefix_len * 2 ^ (width - n.prefix_len) =
      ap (λ k. 2 ^ k) (omega arith) ∙ two_pow-add n.prefix_len (width - n.prefix_len) in
    rw split (
      block_end-lt n.network (2 ^ (width - n.prefix_len)) (two_pow-pos (width - n.prefix_len)) w.1
        (2 ^ n.prefix_len) (omega (arith, split)))

range_end-v4 : (n : Net) → IsNet 32 n → ipv4_range_end n ≡ n.network + (2 ^ (32 - n.prefix_len) - 1)
unfolding ipv4_range_end
range_end-v4 n w =
    let shift : ((32 - n.prefix_len) % 32) ≡ 32 - n.prefix_len = omega (arith, w.3) in
    rw shift (ground (arith, end-lt 32 n w, mod-eq_of_lt (end-lt 32 n w)))

range_end-v6 :
    (n : Net) → IsNet 128 n → ipv6_range_end n ≡ n.network + (2 ^ (128 - n.prefix_len) - 1)
unfolding ipv6_range_end
range_end-v6 n w =
    let shift : ((128 - n.prefix_len) % 128) ≡ 128 - n.prefix_len = omega (arith, w.3) in
    rw shift (ground (arith, end-lt 128 n w, mod-eq_of_lt (end-lt 128 n w)))

covers-range4 :
    (n : Net) (ip : ℕ)
    → IsNet 32 n
    → covers (record { first = n.network; last = ipv4_range_end n }) ip ≡ same_prefix 32 n ip
unfolding same_prefix
covers-range4 n ip w =
    rw (range_end-v4 n w)
      (block_covers n.network (2 ^ (32 - n.prefix_len)) (two_pow-pos (32 - n.prefix_len)) w.1 ip)

covers-range6 :
    (n : Net) (ip : ℕ)
    → IsNet 128 n
    → covers (record { first = n.network; last = ipv6_range_end n }) ip ≡ same_prefix 128 n ip
unfolding same_prefix
covers-range6 n ip w =
    rw (range_end-v6 n w)
      (block_covers n.network (2 ^ (128 - n.prefix_len)) (two_pow-pos (128 - n.prefix_len)) w.1 ip)

in_any-ranges4 :
    (ns : List IpNet) (ip : ℕ) → AllNets ns → in_any (ranges4 ns) ip ≡ scan ns (addr4 ip)
unfolding in_any scan ranges4 net_contains
in_any-ranges4 [] ip w = refl
in_any-ranges4 (v4 n ∷ ns) ip w = ap₂ ◌||◌ (covers-range4 n ip w.0) (in_any-ranges4 ns ip w.1)
in_any-ranges4 (v6 n ∷ ns) ip w = in_any-ranges4 ns ip w.1

in_any-ranges6 :
    (ns : List IpNet) (ip : ℕ) → AllNets ns → in_any (ranges6 ns) ip ≡ scan ns (addr6 ip)
unfolding in_any scan ranges6 net_contains
in_any-ranges6 [] ip w = refl
in_any-ranges6 (v4 n ∷ ns) ip w = in_any-ranges6 ns ip w.1
in_any-ranges6 (v6 n ∷ ns) ip w = ap₂ ◌||◌ (covers-range6 n ip w.0) (in_any-ranges6 ns ip w.1)

AllValid-ranges4 : (ns : List IpNet) → AllNets ns → AllValid (ranges4 ns)
unfolding ranges4
AllValid-ranges4 [] w = tt
AllValid-ranges4 (v4 n ∷ ns) w = (omega (arith, range_end-v4 n w.0), AllValid-ranges4 ns w.1)
AllValid-ranges4 (v6 n ∷ ns) w = AllValid-ranges4 ns w.1

AllValid-ranges6 : (ns : List IpNet) → AllNets ns → AllValid (ranges6 ns)
unfolding ranges6
AllValid-ranges6 [] w = tt
AllValid-ranges6 (v4 n ∷ ns) w = AllValid-ranges6 ns w.1
AllValid-ranges6 (v6 n ∷ ns) w = (omega (arith, range_end-v6 n w.0), AllValid-ranges6 ns w.1)

merged_scan :
    (rs : List Range) (ip : ℕ)
    → AllValid rs
    → contains_in_ranges (merge_ranges rs) ip ≡ in_any rs ip
merged_scan rs ip v =
    let sound = merge_ranges_sound rs v in
    contains_in_ranges-in_any (merge_ranges rs) ip sound.1 ∙ sound.0 ip

-- For CIDR lists whose networks are as ipnet documents and have a prefix length other than 0, the compiled set (sorted, merged, binary
-- search) contains an address exactly if some network of the list has the address's version
-- and the same prefix bits.
pub contains-compile :
    (nets : List IpNet) (ip : IpAddr) → AllNets nets → contains (compile nets) ip ≡ scan nets ip
unfolding contains compile
contains-compile nets (addr4 ip) w =
    merged_scan (ranges4 nets) ip (AllValid-ranges4 nets w) ∙ in_any-ranges4 nets ip w
contains-compile nets (addr6 ip) w =
    merged_scan (ranges6 nets) ip (AllValid-ranges6 nets w) ∙ in_any-ranges6 nets ip w
