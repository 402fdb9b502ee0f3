-- ===== src/Net/Janitor/Scan/Deletes.antt =====
-- What a scan deletes.
use native.Mathlib.Nat.{mul-div_cancel}
use dae_rs.Prelude.{
  ℕ, suc, ◌+◌, ◌*◌, ◌/◌, ◌%◌, ◌^◌, ◌<◌, ◌≤◌, ◌≡◌, refl, sym, ap, ap₂, ◌∙◌, Bool, true, false, ◌&&◌,
  List, [], ◌∷◌, ◌++◌, Option, some, ltb, length, length-append, append_assoc, append-nil, arith,
  if◌then◌else◌, Bool-cases, inl, inr,
}
use dae_rs.Net.Janitor.Scan.{
  Bytes, MapEntry, MapCalls, Scan, nothing, visit, reset, scan_keys, scan_map, delete_keys, counted,
  finish, janitor_scan_and_delete,
}

-- The entries of the lookup that the scan goes by: of the batches if they are tried and succeed, of
-- the keys one by one otherwise.
abbrev pub source : Bool → MapCalls → List MapEntry × Bool
source batch_lookup c = if batch_lookup && c.batch_lookup.1 then c.batch_lookup else c.per_key_scan

-- The expired keys, in one buffer, and their number.
unfoldable pub expired : (Bytes → Bytes → Bool) → List MapEntry → Bytes
expired is_expired [] = []
expired is_expired (e ∷ es) =
    let rest = expired is_expired es in if is_expired e.0 e.1 then e.0 ++ rest else rest

unfoldable pub expired_count : (Bytes → Bytes → Bool) → List MapEntry → ℕ
expired_count is_expired [] = 0
expired_count is_expired (e ∷ es) =
    let rest = expired_count is_expired es in if is_expired e.0 e.1 then suc rest else rest

abbrev pub Sized : ℕ → List MapEntry → Type 0
Sized key_size [] = Unit {0}
Sized key_size (e ∷ es) = (length e.0 ≡ key_size) × Sized key_size es

abbrev scan_of : ℕ → Bytes → Scan
scan_of n keys = record { visited = n; expired_keys = keys }

visit_lem :
    (is_expired : Bytes → Bytes → Bool) (es : List MapEntry) (s : Scan)
    → visit is_expired es s
      ≡ scan_of (s.visited + length es) (s.expired_keys ++ expired is_expired es)
unfolding visit expired
visit_lem is_expired [] s = ap₂ scan_of (omega arith) (sym (append-nil s.expired_keys))
visit_lem is_expired (e ∷ es) s =
    visit_lem is_expired es (record {
      visited = s.visited + 1;
      expired_keys = if is_expired e.0 e.1 then s.expired_keys ++ e.0 else s.expired_keys;
    })
    ∙ ap₂ scan_of (omega arith) keys
  where
    keys :
        (if is_expired e.0 e.1 then s.expired_keys ++ e.0 else s.expired_keys)
          ++ expired is_expired es
        ≡ s.expired_keys
          ++ (if is_expired e.0 e.1 then e.0 ++ expired is_expired es else expired is_expired es)
    keys = elim (Bool-cases (is_expired e.0 e.1)) [
      | inl old ↦ rw old (append_assoc s.expired_keys e.0 (expired is_expired es))
      | inr young ↦ rw young refl
    ]

expired_count-le :
    (is_expired : Bytes → Bytes → Bool) (es : List MapEntry)
    → expired_count is_expired es ≤ length es
unfolding expired_count
expired_count-le is_expired [] = omega arith
expired_count-le is_expired (e ∷ es) = ground (arith, expired_count-le is_expired es)

length-expired :
    (key_size : ℕ) (is_expired : Bytes → Bytes → Bool) (es : List MapEntry)
    → Sized key_size es
    → length (expired is_expired es) ≡ expired_count is_expired es * key_size
unfolding expired expired_count
length-expired key_size is_expired [] h = omega arith
length-expired key_size is_expired (e ∷ es) h = elim (Bool-cases (is_expired e.0 e.1)) [
  | inl old ↦ rw old (
      length-append e.0 (expired is_expired es)
      ∙ ground (arith, h.0, length-expired key_size is_expired es h.1))
  | inr young ↦ rw young (length-expired key_size is_expired es h.1)
]

deleted_count :
    (key_size : ℕ) (is_expired : Bytes → Bytes → Bool) (es : List MapEntry)
    → 0 < key_size
    → Sized key_size es
    → length es < 2 ^ 32
    → length (expired is_expired es) / key_size % 2 ^ 32 ≡ expired_count is_expired es
deleted_count key_size is_expired es pos h small =
    ap (λ n. n % 2 ^ 32)
      (ap (λ n. n / key_size) (length-expired key_size is_expired es h)
        ∙ mul-div_cancel (expired_count is_expired es) pos)
    ∙ omega (arith, expired_count-le is_expired es)

visit-nothing :
    (is_expired : Bytes → Bytes → Bool) (es : List MapEntry)
    → visit is_expired es nothing ≡ scan_of (length es) (expired is_expired es)
visit-nothing is_expired es =
    visit_lem is_expired es nothing ∙ ap (λ n. scan_of n (expired is_expired es)) (omega arith)

scan_keys-visit :
    (is_expired : Bytes → Bytes → Bool) (c : MapCalls)
    → c.per_key_scan.1 ≡ true
    → scan_keys is_expired c nothing
      ≡ some (scan_of (length c.per_key_scan.0) (expired is_expired c.per_key_scan.0))
unfolding scan_keys
scan_keys-visit is_expired c h = rw h (ap some (visit-nothing is_expired c.per_key_scan.0))

scan_map-source :
    (is_expired : Bytes → Bytes → Bool) (batch_lookup : Bool) (c : MapCalls)
    → (source batch_lookup c).1 ≡ true
    → scan_map is_expired batch_lookup c
      ≡ some (
          scan_of (length (source batch_lookup c).0) (expired is_expired (source batch_lookup c).0))
unfolding scan_map reset
scan_map-source is_expired true c h = elim (Bool-cases c.batch_lookup.1) [
  | inl e ↦ rw e (ap some (visit-nothing is_expired c.batch_lookup.0))
  | inr e ↦ rw e (
      scan_keys-visit is_expired c
        (ap (λ b. (if b then c.batch_lookup else c.per_key_scan).1) (sym e) ∙ h))
]
scan_map-source is_expired false c h = scan_keys-visit is_expired c h

-- What comes of deleting a buffer with so many keys.
abbrev pub outcome : MapCalls → ℕ → Bytes → Option ℕ
outcome c n keys =
    if ltb 0 n then (if c.batch_delete keys then some n else c.per_key_delete keys) else some n

-- Where the lookup that the scan goes by succeeds, and visits fewer than 2^32 entries whose keys all
-- have the size given, the scan counts each of those entries once and none that a failed batch lookup
-- visited before; it hands the expired keys among them, in order and none else, to the deletion,
-- and reports their number if there are none or the deletion in one batch succeeds, and otherwise
-- what the deletion one by one comes to.
pub janitor_scan_and_delete-expired :
    (key_size : ℕ) (is_expired : Bytes → Bytes → Bool) (batch_lookup : Bool) (c : MapCalls)
    → (source batch_lookup c).1 ≡ true
    → 0 < key_size
    → Sized key_size (source batch_lookup c).0
    → length (source batch_lookup c).0 < 2 ^ 32
    → janitor_scan_and_delete key_size is_expired batch_lookup c
      ≡ counted (length (source batch_lookup c).0) (
          outcome c
            (expired_count is_expired (source batch_lookup c).0)
            (expired is_expired (source batch_lookup c).0))
unfolding janitor_scan_and_delete finish delete_keys
janitor_scan_and_delete-expired key_size is_expired batch_lookup c h pos sized small =
    let es : List MapEntry = (source batch_lookup c).0 in
    ap (finish key_size c) (scan_map-source is_expired batch_lookup c h)
    ∙ ap (λ n. counted (length es) (outcome c n (expired is_expired es)))
        (deleted_count key_size is_expired es pos sized small)
