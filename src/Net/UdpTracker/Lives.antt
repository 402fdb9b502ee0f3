-- ===== src/Net/UdpTracker/Lives.antt =====
-- The life of a flow over a sequence of calls.
use dae_rs.Prelude.{
  ℕ, ◌≡◌, refl, sym, ap, ◌∙◌, subst, Bool, true, false, ◌&&◌, ◌||◌, List, [], ◌∷◌, ◌++◌, Option,
  none, some, if◌then◌else◌, arith, Bool-cases, inl, inr,
}
use dae_rs.Text.Equality.{any}
use dae_rs.Net.UdpTracker.{
  TuplesKey, key_eq, TrackedFlow, Flows, UdpConnStateTracker, flow_of, touch, remove, touch_all,
  remove_all, retain, forget, release_one, release_all, begin_release, finalize_release,
  cleanup_expired, is_some, set_remove,
}
use dae_rs.Net.UdpTracker.Keys.{
  key_eq_iff, none_at, touched, flow_of-touch, flow_of-remove, Distinct, Distinct-touch,
  Distinct-remove, kept, flow_of-live, Distinct-live,
}

pub data Call : Type 0 where
  retains : ℕ → List TuplesKey → Call
  forgets begins finalizes : List TuplesKey → Call
  cleans : ℕ → Call

unfoldable pub apply : Call → UdpConnStateTracker → UdpConnStateTracker
unfolding retain forget begin_release finalize_release cleanup_expired
apply (retains now keys) t = retain now keys t
apply (forgets keys) t = forget keys t
apply (begins keys) t = (begin_release keys t).0
apply (finalizes keys) t = finalize_release keys t
apply (cleans now) t = (cleanup_expired now t).0

unfoldable pub run : List Call → UdpConnStateTracker → UdpConnStateTracker
unfolding apply
run [] t = t
run (c ∷ cs) t = run cs (apply c t)

-- What a call is for one flow.
unfoldable pub step : TuplesKey → Call → Option TrackedFlow → Option TrackedFlow
unfolding any
step k (retains now keys) o = if any (key_eq k) keys then some (touched now o) else o
step k (forgets keys) o = if any (key_eq k) keys then none else o
step k (begins keys) o = if any (key_eq k) keys then none else o
step k (finalizes keys) o = o
step k (cleans now) o = kept now o

unfoldable pub life : TuplesKey → List Call → Option TrackedFlow → Option TrackedFlow
unfolding step
life k [] o = o
life k (c ∷ cs) o = life k cs (step k c o)

-- One flow among those of a state in which no key stands twice.
abbrev Follows : TuplesKey → Option TrackedFlow → Flows → Type 0
Follows k o m = (flow_of k m ≡ o) × Distinct m

touched_twice :
    (now : ℕ) (o : Option TrackedFlow) → touched now (some (touched now o)) ≡ touched now o
touched_twice now none = refl
touched_twice now (some f) = refl

touch_all-Follows :
    (now : ℕ) (k : TuplesKey) (keys : List TuplesKey) (m : Flows)
    → Distinct m
    → Follows k (step k (retains now keys) (flow_of k m)) (touch_all now keys m)
unfolding touch_all step any
touch_all-Follows now k [] m h = (refl, h)
touch_all-Follows now k (l ∷ ls) m h =
    let rest = touch_all-Follows now k ls (touch now l m) (Distinct-touch now l m h) in
    (ground (arith, rest.0, flow_of-touch now k l m, touched_twice now (flow_of k m)), rest.1)

remove_all-Follows :
    (k : TuplesKey) (keys : List TuplesKey) (m : Flows)
    → Distinct m
    → Follows k (step k (forgets keys) (flow_of k m)) (remove_all keys m)
unfolding remove_all step any
remove_all-Follows k [] m h = (refl, h)
remove_all-Follows k (l ∷ ls) m h =
    let rest = remove_all-Follows k ls (remove l m) (Distinct-remove l m h) in
    (ground (arith, rest.0, flow_of-remove k l m), rest.1)

not_some : (o : Option TrackedFlow) → is_some o ≡ false → o ≡ none
not_some none e = refl
not_some (some f) e = ground (arith, e)

-- A key that is not retained.
absent :
    (k l : TuplesKey) (m : Flows)
    → flow_of l m ≡ none
    → flow_of k m ≡ (if key_eq k l then none else flow_of k m)
absent k l m e = elim (Bool-cases (key_eq k l)) [
  | inl same ↦ rw same (none_at k l m same e)
  | inr other ↦ rw other refl
]

pub release_one-Follows :
    (k l : TuplesKey) (r : UdpConnStateTracker × List TuplesKey)
    → Distinct r.0.retained
    → Follows k (if key_eq k l then none else flow_of k r.0.retained) (release_one l r).0.retained
unfolding release_one
release_one-Follows k l r h = elim (Bool-cases (is_some (flow_of l r.0.retained))) [
  | inl e ↦ rw e (flow_of-remove k l r.0.retained, Distinct-remove l r.0.retained h)
  | inr e ↦ rw e (absent k l r.0.retained (not_some (flow_of l r.0.retained) e), h)
]

any-snoc :
    (p : TuplesKey → Bool) (s : List TuplesKey) (l : TuplesKey)
    → any p (s ++ l ∷ []) ≡ (any p s || p l)
unfolding any
any-snoc p [] l = ground arith
any-snoc p (x ∷ xs) l = ground (arith, any-snoc p xs l)

same_flow :
    (k l : TuplesKey) (m : Flows)
    → key_eq k l ≡ true
    → is_some (flow_of k m) ≡ is_some (flow_of l m)
same_flow k l m e = ap (λ x. is_some (flow_of x m)) ((key_eq_iff k l).0 e)

pub released :
    (k l : TuplesKey) (m : Flows)
    → is_some (flow_of l m) ≡ true
    → key_eq k l ≡ (key_eq k l && is_some (flow_of k m))
released k l m e = elim (Bool-cases (key_eq k l)) [
  | inl same ↦ rw same (sym (same_flow k l m same ∙ e))
  | inr other ↦ rw other refl
]

pub passed_over :
    (k l : TuplesKey) (m : Flows) (b : Bool)
    → is_some (flow_of l m) ≡ false
    → b ≡ (b || (key_eq k l && is_some (flow_of k m)))
passed_over k l m b e = elim (Bool-cases (key_eq k l)) [
  | inl same ↦ ground (arith, same, same_flow k l m same, e)
  | inr other ↦ ground (arith, other)
]

-- The key is in the list that is returned where it was asked for and retained.
any-release_one :
    (k l : TuplesKey) (r : UdpConnStateTracker × List TuplesKey)
    → any (key_eq k) (release_one l r).1
      ≡ (any (key_eq k) r.1 || (key_eq k l && is_some (flow_of k r.0.retained)))
unfolding release_one
any-release_one k l r = elim (Bool-cases (is_some (flow_of l r.0.retained))) [
  | inl e ↦
      rw e (
        any-snoc (key_eq k) r.1 l ∙ ap (λ b. any (key_eq k) r.1 || b) (released k l r.0.retained e))
  | inr e ↦ rw e (passed_over k l r.0.retained (any (key_eq k) r.1) e)
]

release_all-Follows :
    (k : TuplesKey) (keys : List TuplesKey) (r : UdpConnStateTracker × List TuplesKey)
    → Distinct r.0.retained
    → Follows k (step k (begins keys) (flow_of k r.0.retained)) (release_all keys r).0.retained
unfolding release_all step any
release_all-Follows k [] r h = (refl, h)
release_all-Follows k (l ∷ ls) r h =
    let now = release_one-Follows k l r h in
    let rest = release_all-Follows k ls (release_one l r) now.1 in
    (ground (arith, rest.0, now.0), rest.1)

pub any-release_all :
    (k : TuplesKey) (keys : List TuplesKey) (r : UdpConnStateTracker × List TuplesKey)
    → Distinct r.0.retained
    → any (key_eq k) (release_all keys r).1
      ≡ (any (key_eq k) r.1 || (any (key_eq k) keys && is_some (flow_of k r.0.retained)))
unfolding release_all any
any-release_all k [] r h = ground arith
any-release_all k (l ∷ ls) r h =
    let now = release_one-Follows k l r h in
    ground (arith, any-release_all k ls (release_one l r) now.1, now.0, any-release_one k l r)

finalize_release-retained :
    (keys : List TuplesKey) (t : UdpConnStateTracker)
    → (finalize_release keys t).retained ≡ t.retained
unfolding finalize_release
finalize_release-retained [] t = refl
finalize_release-retained (k ∷ ks) t =
    finalize_release-retained ks (record t { pending_release = set_remove k t.pending_release })

apply-Follows :
    (k : TuplesKey) (c : Call) (t : UdpConnStateTracker)
    → Distinct t.retained
    → Follows k (step k c (flow_of k t.retained)) (apply c t).retained
unfolding apply step
apply-Follows k (retains now keys) t h = touch_all-Follows now k keys t.retained h
apply-Follows k (forgets keys) t h = remove_all-Follows k keys t.retained h
apply-Follows k (begins keys) t h = release_all-Follows k keys (t, []) h
apply-Follows k (finalizes keys) t h =
    let same = sym (finalize_release-retained keys t) in
    (ap (flow_of k) (sym same), subst Distinct same h)
apply-Follows k (cleans now) t h = (flow_of-live now k t.retained h, Distinct-live now t.retained h)

-- For every sequence of calls and every key: what the tracker holds for the key after the calls
-- is what the calls make of that key's flow alone, from a state in which no key stands twice.
pub run-life :
    (k : TuplesKey) (cs : List Call) (t : UdpConnStateTracker)
    → Distinct t.retained
    → flow_of k (run cs t).retained ≡ life k cs (flow_of k t.retained)
unfolding run life
run-life k [] t h = refl
run-life k (c ∷ cs) t h =
    let now = apply-Follows k c t h in run-life k cs (apply c t) now.1 ∙ ap (life k cs) now.0
