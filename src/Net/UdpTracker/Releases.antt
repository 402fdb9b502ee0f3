-- ===== src/Net/UdpTracker/Releases.antt =====
-- The keys that are released, and those whose release is pending.
use dae_rs.Prelude.{
  ◌≡◌, refl, ap, ◌∙◌, true, not, ◌&&◌, ◌||◌, List, [], ◌∷◌, arith, Bool-cases, inl, inr,
}
use dae_rs.Text.Equality.{any}
use dae_rs.Net.UdpTracker.{
  TuplesKey, key_eq, UdpConnStateTracker, flow_of, release_one, release_all, begin_release,
  finalize_release, is_retained, is_some, set_insert, set_remove,
}
use dae_rs.Net.UdpTracker.Keys.{key_eq_iff, same_right, other_right, Distinct}
use dae_rs.Net.UdpTracker.Lives.{any-release_all, release_one-Follows, released, passed_over}

same_member :
    (k l : TuplesKey) (s : List TuplesKey) → key_eq k l ≡ true → any (key_eq k) s ≡ any (key_eq l) s
same_member k l s e = ap (λ x. any (key_eq x) s) ((key_eq_iff k l).0 e)

any-set_insert :
    (k l : TuplesKey) (s : List TuplesKey)
    → any (key_eq k) (set_insert l s) ≡ (any (key_eq k) s || key_eq k l)
unfolding set_insert any
any-set_insert k l s = elim (Bool-cases (any (key_eq l) s)) [
  | inl e ↦ rw e (elim (Bool-cases (key_eq k l)) [
    | inl same ↦ ground (arith, same, same_member k l s same, e)
    | inr other ↦ ground (arith, other)
  ])
  | inr e ↦ rw e (ground arith)
]

any-set_remove :
    (k l : TuplesKey) (s : List TuplesKey)
    → any (key_eq k) (set_remove l s) ≡ (any (key_eq k) s && not (key_eq k l))
unfolding set_remove any
any-set_remove k l [] = refl
any-set_remove k l (x ∷ xs) = elim (Bool-cases (key_eq l x)) [
  | inl same ↦ ground (arith, same, same_right k l x same, any-set_remove k l xs)
  | inr other ↦ ground (arith, other, other_right k l x other, any-set_remove k l xs)
]

any-release_one_pending :
    (k l : TuplesKey) (r : UdpConnStateTracker × List TuplesKey)
    → any (key_eq k) (release_one l r).0.pending_release
      ≡ (any (key_eq k) r.0.pending_release || (key_eq k l && is_some (flow_of k r.0.retained)))
unfolding release_one
any-release_one_pending k l r = elim (Bool-cases (is_some (flow_of l r.0.retained))) [
  | inl e ↦ rw e (
      any-set_insert k l r.0.pending_release
      ∙ ap (λ b. any (key_eq k) r.0.pending_release || b) (released k l r.0.retained e))
  | inr e ↦ rw e (passed_over k l r.0.retained (any (key_eq k) r.0.pending_release) e)
]

any-release_all_pending :
    (k : TuplesKey) (keys : List TuplesKey) (r : UdpConnStateTracker × List TuplesKey)
    → Distinct r.0.retained
    → any (key_eq k) (release_all keys r).0.pending_release ≡ (
        any (key_eq k) r.0.pending_release
        || (any (key_eq k) keys && is_some (flow_of k r.0.retained)))
unfolding release_all any
any-release_all_pending k [] r h = ground arith
any-release_all_pending k (l ∷ ls) r h =
    let now = release_one-Follows k l r h in
    ground (
      arith,
      any-release_all_pending k ls (release_one l r) now.1,
      now.0,
      any-release_one_pending k l r,
    )

any-finalize_release :
    (k : TuplesKey) (keys : List TuplesKey) (t : UdpConnStateTracker)
    → any (key_eq k) (finalize_release keys t).pending_release
      ≡ (any (key_eq k) t.pending_release && not (any (key_eq k) keys))
unfolding finalize_release any
any-finalize_release k [] t = ground arith
any-finalize_release k (l ∷ ls) t = ground (
  arith,
  any-finalize_release k ls (record t { pending_release = set_remove l t.pending_release }),
  any-set_remove k l t.pending_release,
)

-- The keys that `begin_release` returns.
abbrev pub releases : List TuplesKey → UdpConnStateTracker → List TuplesKey
releases keys t = (begin_release keys t).1

-- In a state in which no key stands twice, for every key: `begin_release` returns it where it is
-- among the keys asked for and retained; it is pending after the call where it was pending before
-- or is returned; and after `finalize_release` of the returned keys it is pending where it was
-- pending before and was not returned.
pub finalize_release-begin_release :
    (k : TuplesKey) (keys : List TuplesKey) (t : UdpConnStateTracker)
    → Distinct t.retained
    → (any (key_eq k) (releases keys t) ≡ (any (key_eq k) keys && is_retained k t))
      × (any (key_eq k) (begin_release keys t).0.pending_release
          ≡ (any (key_eq k) t.pending_release || any (key_eq k) (releases keys t)))
      × (any
            (key_eq k)
            (finalize_release (releases keys t) (begin_release keys t).0).pending_release
          ≡ (any (key_eq k) t.pending_release && not (any (key_eq k) (releases keys t))))
unfolding begin_release is_retained any
finalize_release-begin_release k keys t h =
    let returned = any-release_all k keys (t, []) h in
    let pending = any-release_all_pending k keys (t, []) h in
    let final = any-finalize_release k (releases keys t) (begin_release keys t).0 in
    (
      ground (arith, returned),
      ground (arith, returned, pending),
      ground (arith, final, returned, pending),
    )
