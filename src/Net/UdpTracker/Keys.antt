-- ===== src/Net/UdpTracker/Keys.antt =====
-- The flow of one key under each change of the map.
use dae_rs.Prelude.{
  ℕ, ◌≡◌, refl, sym, ap, ◌∙◌, subst, ◌↔◌, Bool, true, false, ◌&&◌, [], ◌∷◌, Option, none, some,
  ==_iff, if◌then◌else◌, arith, Bool-cases, inl, inr,
}
use dae_rs.Text.Equality.{any, text_eq_iff}
use dae_rs.Net.UdpTracker.{
  TuplesKey, key_eq, TrackedFlow, Flows, flow_of, touch, remove, is_expired, live, expired_keys,
}

pub key_eq_iff : (k l : TuplesKey) → (key_eq k l ≡ true) ↔ (k ≡ l)
unfolding key_eq
key_eq_iff k l = ground (
  arith,
  text_eq_iff k.sip l.sip,
  text_eq_iff k.dip l.dip,
  text_eq_iff k.pad l.pad,
  ==_iff k.sport l.sport,
  ==_iff k.dport l.dport,
  ==_iff k.l4proto l.l4proto,
)

key_eq_refl : (k : TuplesKey) → key_eq k k ≡ true
key_eq_refl k = (key_eq_iff k k).1 refl

pub same_right : (k l m : TuplesKey) → key_eq l m ≡ true → key_eq k l ≡ key_eq k m
same_right k l m e = ap (key_eq k) ((key_eq_iff l m).0 e)

pub other_right : (k l m : TuplesKey) → key_eq l m ≡ false → (key_eq k l && key_eq k m) ≡ false
other_right k l m e = elim (Bool-cases (key_eq k l)) [
  | inl same ↦ rw same (subst (λ x. key_eq x m ≡ false) (sym ((key_eq_iff k l).0 same)) e)
  | inr other ↦ rw other refl
]

other_sym : (k l : TuplesKey) → key_eq l k ≡ false → key_eq k l ≡ false
other_sym k l e = elim (Bool-cases (key_eq k l)) [
  | inl same ↦
      let back : key_eq l k ≡ true =
        subst (λ x. key_eq x k ≡ true) ((key_eq_iff k l).0 same) (key_eq_refl k) in
      ground (arith, back, e)
  | inr other ↦ other
]

pub none_at :
    (k l : TuplesKey) (m : Flows) → key_eq k l ≡ true → flow_of l m ≡ none → flow_of k m ≡ none
none_at k l m e h = subst (λ x. flow_of x m ≡ none) (sym ((key_eq_iff k l).0 e)) h

-- What `retain` makes of a flow.
abbrev pub touched : ℕ → Option TrackedFlow → TrackedFlow
touched now none = record { created = now; last_active = now }
touched now (some f) = record { created = f.created; last_active = now }

pub flow_of-touch :
    (now : ℕ) (k l : TuplesKey) (m : Flows)
    → flow_of k (touch now l m)
      ≡ (if key_eq k l then some (touched now (flow_of k m)) else flow_of k m)
unfolding flow_of touch
flow_of-touch now k l [] = ground arith
flow_of-touch now k l (e ∷ es) = elim (Bool-cases (key_eq l e.0)) [
  | inl same ↦ ground (arith, same, same_right k l e.0 same)
  | inr other ↦ ground (arith, other, other_right k l e.0 other, flow_of-touch now k l es)
]

pub flow_of-remove :
    (k l : TuplesKey) (m : Flows)
    → flow_of k (remove l m) ≡ (if key_eq k l then none else flow_of k m)
unfolding flow_of remove
flow_of-remove k l [] = ground arith
flow_of-remove k l (e ∷ es) = elim (Bool-cases (key_eq l e.0)) [
  | inl same ↦ ground (arith, same, same_right k l e.0 same, flow_of-remove k l es)
  | inr other ↦ ground (arith, other, other_right k l e.0 other, flow_of-remove k l es)
]

-- No key stands twice.
abbrev pub Distinct : Flows → Type 0
Distinct [] = Unit {0}
Distinct (e ∷ es) = (flow_of e.0 es ≡ none) × Distinct es

pub Distinct-touch : (now : ℕ) (l : TuplesKey) (m : Flows) → Distinct m → Distinct (touch now l m)
unfolding touch
Distinct-touch now l [] h = (unfold flow_of in refl, tt)
Distinct-touch now l (e ∷ es) h = elim (Bool-cases (key_eq l e.0)) [
  | inl same ↦ rw same h
  | inr other ↦ rw other (
    ground (arith, flow_of-touch now e.0 l es, other_sym e.0 l other, h.0),
    Distinct-touch now l es h.1,
  )
]

pub Distinct-remove : (l : TuplesKey) (m : Flows) → Distinct m → Distinct (remove l m)
unfolding remove
Distinct-remove l [] h = tt
Distinct-remove l (e ∷ es) h = elim (Bool-cases (key_eq l e.0)) [
  | inl same ↦ rw same (Distinct-remove l es h.1)
  | inr other ↦ rw other (
    ground (arith, flow_of-remove e.0 l es, other_sym e.0 l other, h.0),
    Distinct-remove l es h.1,
  )
]

-- What `cleanup_expired` leaves of a flow.
abbrev pub kept : ℕ → Option TrackedFlow → Option TrackedFlow
kept now none = none
kept now (some f) = if is_expired now f then none else some f

abbrev pub expires : ℕ → Option TrackedFlow → Bool
expires now none = false
expires now (some f) = is_expired now f

pub flow_of-live :
    (now : ℕ) (k : TuplesKey) (m : Flows)
    → Distinct m
    → flow_of k (live now m) ≡ kept now (flow_of k m)
unfolding flow_of live
flow_of-live now k [] h = refl
flow_of-live now k (e ∷ es) h = elim (Bool-cases (key_eq k e.0)) [
  | inl same ↦ ground (arith, same, none_at k e.0 es same h.0, flow_of-live now k es h.1)
  | inr other ↦ ground (arith, other, flow_of-live now k es h.1)
]

pub any-expired_keys :
    (now : ℕ) (k : TuplesKey) (m : Flows)
    → Distinct m
    → any (key_eq k) (expired_keys now m) ≡ expires now (flow_of k m)
unfolding flow_of expired_keys any
any-expired_keys now k [] h = refl
any-expired_keys now k (e ∷ es) h = elim (Bool-cases (key_eq k e.0)) [
  | inl same ↦ ground (arith, same, none_at k e.0 es same h.0, any-expired_keys now k es h.1)
  | inr other ↦ ground (arith, other, any-expired_keys now k es h.1)
]

pub Distinct-live : (now : ℕ) (m : Flows) → Distinct m → Distinct (live now m)
unfolding live
Distinct-live now [] h = tt
Distinct-live now (e ∷ es) h = elim (Bool-cases (is_expired now e.1)) [
  | inl old ↦ rw old (Distinct-live now es h.1)
  | inr young ↦ rw young (flow_of-live now e.0 es h.1 ∙ ap (kept now) h.0, Distinct-live now es h.1)
]
