-- ===== src/Net/UdpTracker.antt =====
-- control/src/net/udp_tracker.rs. The clock is an argument, in nanoseconds.
use dae_rs.Prelude.{
  ℕ, ◌-◌, ◌/◌, Bool, true, false, not, ◌&&◌, ◌||◌, List, [], ◌∷◌, ◌++◌, Option, none, some, ltb,
  ◌==◌, if◌then◌else◌,
}
use dae_rs.Text.{text_eq}
use dae_rs.Text.Equality.{any}
pub mod Keys
pub mod Lives
pub mod Releases

abbrev pub min_retain_secs : ℕ
min_retain_secs = 10

abbrev pub max_retain_secs : ℕ
max_retain_secs = 300

-- `TuplesKey` of ebpf.rs, whose `==` compares all its fields; addresses are bytes.
pub record TuplesKey : Type 0 where
  pub sip : List ℕ
  pub dip : List ℕ
  pub sport : ℕ
  pub dport : ℕ
  pub l4proto : ℕ
  pub pad : List ℕ

unfoldable pub key_eq : TuplesKey → TuplesKey → Bool
unfolding text_eq
key_eq k l =
    text_eq k.sip l.sip
    && text_eq k.dip l.dip
    && k.sport == l.sport
    && k.dport == l.dport
    && k.l4proto == l.l4proto
    && text_eq k.pad l.pad

pub record TrackedFlow : Type 0 where
  pub created : ℕ
  pub last_active : ℕ

abbrev pub Flows : Type 0
Flows = List (TuplesKey × TrackedFlow)

pub record UdpConnStateTracker : Type 0 where
  pub retained : Flows
  pub pending_release : List TuplesKey

abbrev pub new : UdpConnStateTracker
new = record { retained = []; pending_release = [] }

unfoldable pub flow_of : TuplesKey → Flows → Option TrackedFlow
unfolding key_eq
flow_of k [] = none
flow_of k (e ∷ es) = if key_eq k e.0 then some e.1 else flow_of k es

-- `entry(key).or_insert_with(..)` with `last_active = now`.
unfoldable pub touch : ℕ → TuplesKey → Flows → Flows
unfolding key_eq
touch now k [] = (k, record { created = now; last_active = now }) ∷ []
touch now k (e ∷ es) =
    let rest = touch now k es in
    if key_eq k e.0
    then (e.0, record { created = e.1.created; last_active = now }) ∷ es
    else e ∷ rest

unfoldable pub remove : TuplesKey → Flows → Flows
unfolding key_eq
remove k [] = []
remove k (e ∷ es) = let rest = remove k es in if key_eq k e.0 then rest else e ∷ rest

unfoldable pub touch_all : ℕ → List TuplesKey → Flows → Flows
unfolding touch
touch_all now [] m = m
touch_all now (k ∷ ks) m = touch_all now ks (touch now k m)

unfoldable pub remove_all : List TuplesKey → Flows → Flows
unfolding remove
remove_all [] m = m
remove_all (k ∷ ks) m = remove_all ks (remove k m)

unfoldable pub retain : ℕ → List TuplesKey → UdpConnStateTracker → UdpConnStateTracker
unfolding touch_all
retain now keys t = record t { retained = touch_all now keys t.retained }

unfoldable pub forget : List TuplesKey → UdpConnStateTracker → UdpConnStateTracker
unfolding remove_all
forget keys t = record t { retained = remove_all keys t.retained }

-- `HashSet::insert` and `HashSet::remove`.
unfoldable pub set_remove : TuplesKey → List TuplesKey → List TuplesKey
unfolding key_eq
set_remove k [] = []
set_remove k (l ∷ ls) = let rest = set_remove k ls in if key_eq k l then rest else l ∷ rest

unfoldable pub set_insert : TuplesKey → List TuplesKey → List TuplesKey
unfolding key_eq any
set_insert k s = if any (key_eq k) s then s else k ∷ s

abbrev pub is_some {ℓ} : {A : Type ℓ} → Option A → Bool
is_some none = false
is_some (some a) = true

unfoldable pub release_one :
    TuplesKey → UdpConnStateTracker × List TuplesKey → UdpConnStateTracker × List TuplesKey
unfolding flow_of remove set_insert
release_one k r =
    if is_some (flow_of k r.0.retained)
    then (
      record {
        retained = remove k r.0.retained;
        pending_release = set_insert k r.0.pending_release;
      },
      r.1 ++ k ∷ [],
    )
    else r

unfoldable pub release_all :
    List TuplesKey → UdpConnStateTracker × List TuplesKey → UdpConnStateTracker × List TuplesKey
unfolding release_one
release_all [] r = r
release_all (k ∷ ks) r = release_all ks (release_one k r)

unfoldable pub begin_release :
    List TuplesKey → UdpConnStateTracker → UdpConnStateTracker × List TuplesKey
unfolding release_all
begin_release keys t = release_all keys (t, [])

unfoldable pub finalize_release : List TuplesKey → UdpConnStateTracker → UdpConnStateTracker
unfolding set_remove
finalize_release [] t = t
finalize_release (k ∷ ks) t =
    finalize_release ks (record t { pending_release = set_remove k t.pending_release })

unfoldable pub is_retained : TuplesKey → UdpConnStateTracker → Bool
unfolding flow_of
is_retained k t = is_some (flow_of k t.retained)

abbrev pub nanos_per_sec : ℕ
nanos_per_sec = 1_000_000_000

-- `duration_since` is 0 for an instant that is later.
unfoldable pub is_expired : ℕ → TrackedFlow → Bool
is_expired now f =
    ltb max_retain_secs ((now - f.created) / nanos_per_sec)
    || ltb min_retain_secs ((now - f.last_active) / nanos_per_sec)

unfoldable pub live : ℕ → Flows → Flows
unfolding is_expired
live now [] = []
live now (e ∷ es) = let rest = live now es in if is_expired now e.1 then rest else e ∷ rest

unfoldable pub expired_keys : ℕ → Flows → List TuplesKey
unfolding is_expired
expired_keys now [] = []
expired_keys now (e ∷ es) =
    let rest = expired_keys now es in if is_expired now e.1 then e.0 ∷ rest else rest

unfoldable pub cleanup_expired : ℕ → UdpConnStateTracker → UdpConnStateTracker × List TuplesKey
unfolding live expired_keys
cleanup_expired now t = (record t { retained = live now t.retained }, expired_keys now t.retained)
