-- ===== src/Dns/Cache/Replay.antt =====
-- The cache against the record of all that was ever stored.
use dae_rs.Prelude.{
  ℕ, suc, ◌+◌, ◌*◌, ◌≤◌, ◌≡◌, refl, ◌⊎◌, inl, inr, true, false, not, ◌&&◌, List, [], ◌∷◌, Option,
  none, some, ltb, ◌==◌, if◌then◌else◌, length, arith, Bool-cases, sym, ◌∙◌, ap,
}
use dae_rs.Dns.Cache.{
  CacheKey, DnsCache, dns_cache_max, nanos_per_sec, key_eq, lookup, get, make_room, insert,
}
use dae_rs.Dns.Cache.History.{
  key_eq_iff, Distinct, lookup-remove_other, get-retain, insert-bounded, length-remove,
}

pub record Store : Type 0 where
  pub at : ℕ
  pub key : CacheKey
  pub response : List ℕ
  pub ttl : ℕ

-- The last one first.
abbrev pub replay : List Store → DnsCache
replay [] = []
replay (s ∷ h) = insert s.at s.key s.response s.ttl (replay h)

-- The clock does not go back.
abbrev pub InOrder : ℕ → List Store → Type 0
InOrder now [] = Unit
InOrder now (s ∷ h) = (s.at ≤ now) × InOrder s.at h

abbrev pub valid_until : Store → ℕ
valid_until s = s.at + s.ttl * nanos_per_sec

-- The specification: the last response stored under the key with a TTL, while the TTL runs.
abbrev pub current : ℕ → CacheKey → List Store → Option (List ℕ)
current now key [] = none
current now key (s ∷ h) =
    let older = current now key h in
    if key_eq key s.key && not (s.ttl == 0)
    then (if ltb now (valid_until s) then some s.response else none)
    else older

InOrder-later : (t now : ℕ) (h : List Store) → t ≤ now → InOrder t h → InOrder now h
InOrder-later t now [] l o = tt
InOrder-later t now (s ∷ h) l o = (omega (arith, o.0), o.1)

replay-bounded : (h : List Store) → Distinct (replay h) × (length (replay h) ≤ dns_cache_max)
replay-bounded [] = (tt, omega arith)
replay-bounded (s ∷ h) =
    let (d, l) = replay-bounded h in insert-bounded s.at s.key s.response s.ttl (replay h) d l

-- One insertion, seen through a later `get`.
pub get-insert_same :
    (now t : ℕ) (key : CacheKey) (response : List ℕ) (ttl : ℕ) (c : DnsCache)
    → (ttl == 0) ≡ false
    → get now key (insert t key response ttl c)
      ≡ (if ltb now (t + ttl * nanos_per_sec) then some response else none)
unfolding get insert lookup
get-insert_same now t key response ttl c h = rw (h, (key_eq_iff key key).1 refl)

get-make_room :
    (now t : ℕ) (key : CacheKey) (c : DnsCache)
    → t ≤ now
    → Distinct c
    → (get now key (make_room t c) ≡ get now key c) ⊎ (get now key (make_room t c) ≡ none)
unfolding make_room get lookup
get-make_room now t key c l d = ground (arith, get-retain t now key c l d)

pub get-insert_other :
    (now t : ℕ) (key other : CacheKey) (response : List ℕ) (ttl : ℕ) (c : DnsCache)
    → key_eq key other ≡ false
    → (ttl == 0) ≡ false
    → get now key (insert t other response ttl c) ≡ get now key (make_room t c)
unfolding get insert lookup
get-insert_other now t key other response ttl c differ h =
    rw (h, differ, lookup-remove_other key other (make_room t c) differ)

pub get-insert_zero :
    (t : ℕ) (key : CacheKey) (response : List ℕ) (ttl : ℕ) (c : DnsCache)
    → (ttl == 0) ≡ true
    → insert t key response ttl c ≡ c
unfolding insert
get-insert_zero t key response ttl c h = rw h

-- What one store does to the specification.
current_same :
    (now : ℕ) (key : CacheKey) (s : Store) (h : List Store)
    → (s.ttl == 0) ≡ false
    → key_eq key s.key ≡ true
    → current now key (s ∷ h) ≡ (if ltb now (valid_until s) then some s.response else none)
current_same now key s h kept same = rw (kept, same)

current_other :
    (now : ℕ) (key : CacheKey) (s : Store) (h : List Store)
    → ((s.ttl == 0) ≡ true) ⊎ (key_eq key s.key ≡ false)
    → current now key (s ∷ h) ≡ current now key h
current_other now key s h (inl skipped) = ground (arith, skipped)
current_other now key s h (inr differ) = rw differ

-- The cases of one store, seen through a later `get`.
pub Step : ℕ → CacheKey → Store → List Store → Type 0
Step now key s h =
    (get now key (replay (s ∷ h)) ≡ current now key (s ∷ h))
    ⊎ ((current now key (s ∷ h) ≡ current now key h)
        × ((get now key (replay (s ∷ h)) ≡ get now key (replay h))
            ⊎ (get now key (replay (s ∷ h)) ≡ get now key (make_room s.at (replay h)))))

replay-Step : (now : ℕ) (key : CacheKey) (s : Store) (h : List Store) → Step now key s h
unfolding Step
replay-Step now key s h = elim (Bool-cases (s.ttl == 0)) [
  | inl skipped ↦ inr (
    current_other now key s h (inl skipped),
    inl (ap (get now key) (get-insert_zero s.at s.key s.response s.ttl (replay h) skipped)),
  )
  | inr kept ↦ elim (Bool-cases (key_eq key s.key)) [
    | inl same ↦
        let stored = get-insert_same now s.at key s.response s.ttl (replay h) kept in
        let under : get now key (replay (s ∷ h))
            ≡ get now key (insert s.at key s.response s.ttl (replay h)) =
          ap (λ k. get now key (insert s.at k s.response s.ttl (replay h)))
            (sym ((key_eq_iff key s.key).0 same)) in
        inl (under ∙ stored ∙ sym (current_same now key s h kept same))
    | inr differ ↦ inr (
      current_other now key s h (inr differ),
      inr (get-insert_other now s.at key s.key s.response s.ttl (replay h) differ kept),
    )
  ]
]

get-empty : (now : ℕ) (key : CacheKey) → get now key [] ≡ none
unfolding get lookup
get-empty now key = refl

-- After any stores at times that do not go back, a `get` answers what the specification answers (the
-- last response stored under the key with a TTL, while the TTL runs), or nothing.
pub get-replay :
    (now : ℕ) (key : CacheKey) (h : List Store)
    → InOrder now h
    → (get now key (replay h) ≡ current now key h) ⊎ (get now key (replay h) ≡ none)
unfolding Step
get-replay now key [] o = inr (get-empty now key)
get-replay now key (s ∷ h) o =
    let older = get-replay now key h (InOrder-later s.at now h o.0 o.1) in
    let room = get-make_room now s.at key (replay h) o.0 (replay-bounded h).0 in
    ground (arith, replay-Step now key s h, older, room)

make_room-shorter : (t : ℕ) (c : DnsCache) → length (make_room t c) ≤ length c
unfolding make_room
make_room-shorter t c = ground arith

pub length-insert :
    (t : ℕ) (key : CacheKey) (response : List ℕ) (ttl : ℕ) (c : DnsCache)
    → length (insert t key response ttl c) ≤ suc (length c)
unfolding insert
length-insert t key response ttl c =
    let fewer = length-remove key (make_room t c) in ground (arith, fewer, make_room-shorter t c)

length-replay : (h : List Store) → length (replay h) ≤ length h
length-replay [] = omega arith
length-replay (s ∷ h) =
    omega (arith, length-replay h, length-insert s.at s.key s.response s.ttl (replay h))

-- After at most 2048 stores at times that do not go back, a `get` answers exactly what the
-- specification answers: no response is lost before its TTL has run.
pub get-replay_exact :
    (now : ℕ) (key : CacheKey) (h : List Store)
    → InOrder now h
    → length h ≤ dns_cache_max
    → get now key (replay h) ≡ current now key h
unfolding Step make_room
get-replay_exact now key [] o l = get-empty now key
get-replay_exact now key (s ∷ h) o l =
    let older = get-replay_exact now key h (InOrder-later s.at now h o.0 o.1) (omega (arith, l)) in
    let few = length-replay h in ground (arith, replay-Step now key s h, older, few)
