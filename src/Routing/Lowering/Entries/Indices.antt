-- ===== src/Routing/Lowering/Entries/Indices.antt =====
-- The entries of one function: those of the types that name a trie hold the index of one.
use dae_rs.Prelude.{
  ℕ, ◌≡◌, ◌^◌, refl, sym, subst, Bool, true, false, ◌||◌, List, [], ◌∷◌, ◌++◌, Option, some,
  if◌then◌else◌, ◌==◌, get_elem?, Option-cases, inl, inr, Bool-cases,
}
use dae_rs.Text.{Text, is_empty}
use dae_rs.Ruleset.IpSet.{IpNet, host6}
use dae_rs.Routing.MatchSet.{MatchSet, with_index, with_byte}
use dae_rs.Routing.MatchSet.MatchType
use dae_rs.Routing.Expression.{Function, Outbound, Parsed, ok, err, ◌>>=◌}
use dae_rs.Routing.Lowering.{parse_cidr_values}
use dae_rs.Routing.Lowering.Tries.{Tries}
use dae_rs.Routing.Lowering.Tries.Laws.{
  AllIndexed, Extends, Extends-refl, get_elem?-Extends, find_or_create_lpm_trie-IsPlaced,
}
use dae_rs.Routing.Lowering.Entries.{
  FunctionKind, dip_fn, sip_fn, mac_fn, dport_fn, sport_fn, l4proto_fn, ipversion_fn, domain_fn,
  process_name_fn, dscp_fn, qtype_fn, upstream_fn, kind_of, Lowering, EntryOptions, entry_of,
  Lowered, ip_entries, mac_entries, mac_nets, port_value, port_entries, dscp_entries, name_entries,
  pure_entries, parse_number, build_kind, build_match_set_for_function,
}

-- The types whose value is the index of a trie.
abbrev pub names_trie : ℕ → Bool
names_trie type =
    type == MatchType.ip_set || type == MatchType.source_ip_set || type == MatchType.mac

-- The value is the index of a trie.
abbrev pub HasTrie : Tries → Bool → MatchSet → Type 0
HasTrie t false ms = Unit {0}
HasTrie t true ms =
    (i : ℕ) × (ms.value ≡ with_index i)
    × (nets : List IpNet) × (get_elem? t.lpm_tries i ≡ some nets)

abbrev pub AllTries : Tries → List MatchSet → Type 0
AllTries t [] = Unit {0}
AllTries t (ms ∷ l) = HasTrie t (names_trie ms.type) ms × AllTries t l

HasTrie-Extends :
    (t u : Tries) (b : Bool) (ms : MatchSet) → Extends t u → HasTrie t b ms → HasTrie u b ms
HasTrie-Extends t u false ms e h = tt
HasTrie-Extends t u true ms e h = (h.0, h.1, h.2, get_elem?-Extends t u h.0 h.2 e h.3)

pub AllTries-Extends : (t u : Tries) (l : List MatchSet) → Extends t u → AllTries t l → AllTries u l
AllTries-Extends t u [] e h = tt
AllTries-Extends t u (ms ∷ l) e h =
    (HasTrie-Extends t u (names_trie ms.type) ms e h.0, AllTries-Extends t u l e h.1)

pub AllTries-append :
    (t : Tries) (l m : List MatchSet) → AllTries t l → AllTries t m → AllTries t (l ++ m)
AllTries-append t [] m h k = k
AllTries-append t (ms ∷ l) m h k = (h.0, AllTries-append t l m h.1 k)

-- A step of the lowering, from a state whose map of hashes is in bounds: it is in bounds again, the
-- tries stay where they are, and the new entries name tries.
abbrev pub GoodStep : Lowering → Lowering × List MatchSet → Type 0
GoodStep s r = AllIndexed r.0.tries × Extends s.tries r.0.tries × AllTries r.0.tries r.1

-- Where there is a result, it is such a step.
abbrev pub Good : Lowering → Lowered → Type 0
Good s (err e) = Unit {0}
Good s (ok r) = GoodStep s r

pub Good-ok :
    (s : Lowering) (l : Lowered) (r : Lowering × List MatchSet) → Good s l → l ≡ ok r → GoodStep s r
Good-ok s l r h k = subst (Good s) k h

pub Good-bind :
    {A : Type 0} (s : Lowering) (p : Parsed A) (f : A → Lowered)
    → ((a : A) → Good s (f a))
    → Good s (p >>= f)
Good-bind s (err e) f h = tt
Good-bind s (ok a) f h = h a

-- The state stays as it is.
pub Good-same :
    (s : Lowering) (l : List MatchSet) → AllIndexed s.tries → AllTries s.tries l → GoodStep s (s, l)
Good-same s l w h = (w, Extends-refl s.tries, h)

-- The same of a list of entries.
abbrev OkTries : Tries → Parsed (List MatchSet) → Type 0
OkTries t (err e) = Unit {0}
OkTries t (ok l) = AllTries t l

Good-pure_entries :
    (s : Lowering) (p : Parsed (List MatchSet))
    → AllIndexed s.tries
    → OkTries s.tries p
    → Good s (pure_entries s p)
Good-pure_entries s (err e) w h = tt
Good-pure_entries s (ok l) w h = Good-same s l w h

HasTrie-other : (t : Tries) (b : Bool) (ms : MatchSet) → b ≡ false → HasTrie t b ms
HasTrie-other t true ms e = absurd (cc e)
HasTrie-other t false ms e = tt

OkTries-cons :
    {A : Type 0} (t : Tries) (p : Parsed A) (q : Parsed (List MatchSet)) (f : A → MatchSet)
    → ((a : A) → names_trie (f a).type ≡ false)
    → OkTries t q
    → OkTries t (p >>= λ a. q >>= λ more. ok (f a ∷ more))
OkTries-cons t (err e) q f h k = tt
OkTries-cons t (ok a) (err e) f h k = tt
OkTries-cons t (ok a) (ok l) f h k = (HasTrie-other t (names_trie (f a).type) (f a) (h a), k)

module _ (t : Tries) (o : EntryOptions) where
  port_entries-OkTries :
      (type : ℕ) (values : List Text)
      → names_trie type ≡ false
      → OkTries t (port_entries o type values)
  unfolding port_entries
  port_entries-OkTries type [] h = tt
  port_entries-OkTries type (v ∷ vs) h =
      OkTries-cons t (port_value v) (port_entries o type vs) (entry_of o type) (λ value. h)
        (port_entries-OkTries type vs h)

  dscp_entries-OkTries : (values : List Text) → OkTries t (dscp_entries o values)
  unfolding dscp_entries
  dscp_entries-OkTries [] = tt
  dscp_entries-OkTries (v ∷ vs) =
      OkTries-cons t (parse_number (2 ^ 8) v) (dscp_entries o vs)
        (λ dscp. entry_of o MatchType.dscp (with_byte dscp)) (λ dscp. refl)
        (dscp_entries-OkTries vs)

  name_entries-AllTries :
      (type : ℕ) (values : List Text)
      → names_trie type ≡ false
      → AllTries t (name_entries o type values)
  unfolding name_entries
  name_entries-AllTries type [] h = tt
  name_entries-AllTries type (v ∷ vs) h =
      (HasTrie-other t (names_trie type) _ h, name_entries-AllTries type vs h)

HasTrie-at :
    (t : Tries) (b : Bool) (ms : MatchSet) (i : ℕ) (nets : List IpNet)
    → ms.value ≡ with_index i
    → get_elem? t.lpm_tries i ≡ some nets
    → HasTrie t b ms
HasTrie-at t false ms i nets e k = tt
HasTrie-at t true ms i nets e k = (i, e, nets, k)

ip_entries-Good :
    (o : EntryOptions) (type : ℕ) (cidrs : List IpNet) (s : Lowering)
    → AllIndexed s.tries
    → Good s (ip_entries o type cidrs s)
unfolding ip_entries
ip_entries-Good o type cidrs s w =
    let f : Tries × ℕ → Lowered =
      λ r. ok (record s { tries = r.0 }, entry_of o type (with_index r.1) ∷ []) in
    let placed = find_or_create_lpm_trie-IsPlaced cidrs s.tries w in
    subst (λ p. Good s (p >>= f)) (sym placed.1)
      (
        placed.2.0,
        placed.2.1,
        (HasTrie-at placed.0.0 (names_trie type) _ placed.0.1 placed.2.2.0 refl placed.2.2.1, tt),
      )

mac_entries-Good :
    (o : EntryOptions) (raw_params : List Text) (s : Lowering)
    → AllIndexed s.tries
    → Good s (mac_entries o raw_params s)
unfolding mac_entries
mac_entries-Good o raw_params s w =
    let nets = mac_nets raw_params ++ (if o.negated then host6 0 ∷ [] else []) in
    elim (Bool-cases (is_empty nets)) [
      | inl e ↦ rw (e, mac_entries) (Good-same s [] w tt)
      | inr e ↦ rw (e, mac_entries) (ip_entries-Good o MatchType.mac nets s w)
    ]

module _ (parse_net : Text → Option IpNet) (sets : Option (Text → Option (List IpNet))) where
  pub build_kind-Good :
      (kind : FunctionKind) (func : Function) (values : List Text) (o : EntryOptions) (s : Lowering)
      → AllIndexed s.tries
      → Good s (build_kind parse_net sets kind func values o s)
  unfolding build_kind
  build_kind-Good dip_fn func values o s w =
      Good-bind s (parse_cidr_values parse_net sets func.raw_params) _
        λ cidrs. ip_entries-Good o MatchType.ip_set cidrs s w
  build_kind-Good sip_fn func values o s w =
      Good-bind s (parse_cidr_values parse_net sets func.raw_params) _
        λ cidrs. ip_entries-Good o MatchType.source_ip_set cidrs s w
  build_kind-Good mac_fn func values o s w = mac_entries-Good o func.raw_params s w
  build_kind-Good dport_fn func values o s w =
      Good-pure_entries s (port_entries o MatchType.port values) w
        (port_entries-OkTries s.tries o MatchType.port values refl)
  build_kind-Good sport_fn func values o s w =
      Good-pure_entries s (port_entries o MatchType.source_port values) w
        (port_entries-OkTries s.tries o MatchType.source_port values refl)
  build_kind-Good l4proto_fn func values o s w = (w, Extends-refl s.tries, (tt, tt))
  build_kind-Good ipversion_fn func values o s w = (w, Extends-refl s.tries, (tt, tt))
  build_kind-Good domain_fn func values o s w = (w, Extends-refl s.tries, (tt, tt))
  build_kind-Good process_name_fn func values o s w =
      Good-same s _ w (name_entries-AllTries s.tries o MatchType.process_name values refl)
  build_kind-Good dscp_fn func values o s w =
      Good-pure_entries s (dscp_entries o values) w (dscp_entries-OkTries s.tries o values)
  build_kind-Good qtype_fn func values o s w = (w, Extends-refl s.tries, (tt, tt))
  build_kind-Good upstream_fn func values o s w =
      Good-same s _ w (name_entries-AllTries s.tries o MatchType.upstream values refl)

  pub build_match_set_for_function-Good :
      (func : Function) (values : List Text) (outbound_id : ℕ) (ov_outbound : Outbound)
      (s : Lowering)
      → AllIndexed s.tries
      → Good s (build_match_set_for_function parse_net sets func values outbound_id ov_outbound s)
  unfolding build_match_set_for_function
  build_match_set_for_function-Good func values outbound_id ov_outbound s w =
      elim (Option-cases (kind_of func.name)) [
        | inl e ↦ rw (e, build_match_set_for_function) tt
        | inr (kind, e) ↦
            rw (e, build_match_set_for_function) (build_kind-Good kind func values _ s w)
      ]
