-- ===== src/Net/Janitor/Scan.antt =====
-- `janitor_scan_and_delete` of control/src/net/ebpf.rs, with what the system calls on the map do as a
-- parameter, and the tests of age that its three callers pass.
use dae_rs.Prelude.{
  ℕ, ◌+◌, ◌-◌, ◌*◌, ◌/◌, ◌%◌, ◌^◌, Bool, true, false, ◌&&◌, List, [], ◌∷◌, ◌++◌, Option, none, some,
  ltb, ◌==◌, length, if◌then◌else◌,
}
pub mod Ages
pub mod Deletes

abbrev pub Bytes : Type 0
Bytes = List ℕ

-- A key and its value.
abbrev pub MapEntry : Type 0
MapEntry = Bytes × Bytes

-- The entries that a lookup visits, and whether it succeeds; a deletion gets the keys in one buffer.
pub record MapCalls : Type 0 where
  pub batch_lookup : List MapEntry × Bool
  pub per_key_scan : List MapEntry × Bool
  pub batch_delete : Bytes → Bool
  pub per_key_delete : Bytes → Option ℕ

pub record Scan : Type 0 where
  pub visited : ℕ
  pub expired_keys : Bytes

abbrev pub nothing : Scan
nothing = record { visited = 0; expired_keys = [] }

-- The closure that the lookups call.
unfoldable pub visit : (Bytes → Bytes → Bool) → List MapEntry → Scan → Scan
visit is_expired [] s = s
visit is_expired (e ∷ es) s = visit is_expired es (record {
  visited = s.visited + 1;
  expired_keys = if is_expired e.0 e.1 then s.expired_keys ++ e.0 else s.expired_keys;
})

unfoldable pub reset : Scan → Scan
reset s = record { visited = 0; expired_keys = [] }

unfoldable pub scan_keys : (Bytes → Bytes → Bool) → MapCalls → Scan → Option Scan
unfolding visit
scan_keys is_expired c s =
    if c.per_key_scan.1 then some (visit is_expired c.per_key_scan.0 s) else none

unfoldable pub scan_map : (Bytes → Bytes → Bool) → Bool → MapCalls → Option Scan
unfolding visit reset scan_keys
scan_map is_expired batch_lookup c =
    let seen = visit is_expired c.batch_lookup.0 nothing in
    if batch_lookup
    then (if c.batch_lookup.1 then some seen else scan_keys is_expired c (reset seen))
    else scan_keys is_expired c nothing

unfoldable pub delete_keys : ℕ → MapCalls → Bytes → Option ℕ
delete_keys key_size c keys =
    let deleted = length keys / key_size % 2 ^ 32 in
    if ltb 0 deleted
    then (if c.batch_delete keys then some deleted else c.per_key_delete keys)
    else some deleted

abbrev pub counted : ℕ → Option ℕ → Option (ℕ × ℕ)
counted visited none = none
counted visited (some deleted) = some (visited, deleted)

unfoldable pub finish : ℕ → MapCalls → Option Scan → Option (ℕ × ℕ)
unfolding delete_keys
finish key_size c none = none
finish key_size c (some s) = counted s.visited (delete_keys key_size c s.expired_keys)

unfoldable pub janitor_scan_and_delete :
    ℕ → (Bytes → Bytes → Bool) → Bool → MapCalls → Option (ℕ × ℕ)
unfolding scan_map finish
janitor_scan_and_delete key_size is_expired batch_lookup c =
    finish key_size c (scan_map is_expired batch_lookup c)
