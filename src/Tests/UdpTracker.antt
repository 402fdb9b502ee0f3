-- ===== src/Tests/UdpTracker.antt =====
-- Instances of the theorems at concrete inputs: control/src/net/udp_tracker.rs.
use dae_rs.Prelude.{ℕ, ◌≡◌, refl, not, ◌&&◌, ◌||◌, List, [], ◌∷◌, some, none}
use dae_rs.Text.Equality.{any}
use dae_rs.Net.UdpTracker.{
  TuplesKey, key_eq, UdpConnStateTracker, new, flow_of, begin_release, finalize_release,
  is_retained,
}
use dae_rs.Net.UdpTracker.Keys.{Distinct}
use dae_rs.Net.UdpTracker.Lives.{Call, retains, cleans, run, life, run-life}
use dae_rs.Net.UdpTracker.Releases.{releases, finalize_release-begin_release}

abbrev key : ℕ → TuplesKey
key port = record { sip = 10 ∷ []; dip = 1 ∷ []; sport = port; dport = 53; l4proto = 17; pad = [] }

-- Two flows; the second is idle for 11 seconds and the first for 6 when they are cleaned.
abbrev calls : List Call
calls =
    retains 0 (key 1 ∷ key 2 ∷ []) ∷ retains 5_000_000_000 (key 1 ∷ []) ∷ cleans 11_000_000_000 ∷ []

run-life_example :
    flow_of (key 1) (run calls new).retained ≡ life (key 1) calls (flow_of (key 1) new.retained)
run-life_example = run-life (key 1) calls new tt

kept_test :
    (flow_of (key 1) (run calls new).retained
      ≡ some (record { created = 0; last_active = 5_000_000_000 }))
    × (flow_of (key 2) (run calls new).retained ≡ none)
unfolding run flow_of
kept_test = (refl, refl)

abbrev tracked : UdpConnStateTracker
tracked = record {
  retained = (key 1, record { created = 0; last_active = 0 }) ∷ [];
  pending_release = key 3 ∷ [];
}

abbrev tracked_Distinct : Distinct tracked.retained
tracked_Distinct = (unfold flow_of in refl, tt)

finalize_release-begin_release_example :
    (any (key_eq (key 1)) (releases (key 1 ∷ key 2 ∷ []) tracked)
      ≡ (any (key_eq (key 1)) (key 1 ∷ key 2 ∷ []) && is_retained (key 1) tracked))
    × (any (key_eq (key 1)) (begin_release (key 1 ∷ key 2 ∷ []) tracked).0.pending_release ≡ (
        any (key_eq (key 1)) tracked.pending_release
        || any (key_eq (key 1)) (releases (key 1 ∷ key 2 ∷ []) tracked)))
    × (any
          (key_eq (key 1))
          (finalize_release
            (releases (key 1 ∷ key 2 ∷ []) tracked)
            (begin_release (key 1 ∷ key 2 ∷ []) tracked).0).pending_release
        ≡ (any (key_eq (key 1)) tracked.pending_release
            && not (any (key_eq (key 1)) (releases (key 1 ∷ key 2 ∷ []) tracked))))
finalize_release-begin_release_example =
    finalize_release-begin_release (key 1) (key 1 ∷ key 2 ∷ []) tracked tracked_Distinct
