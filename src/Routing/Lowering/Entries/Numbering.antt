-- ===== src/Routing/Lowering/Entries/Numbering.antt =====
-- The entries of one function: those of type DOMAIN_SET hold the next indices.
use dae_rs.Prelude.{
  ℕ, zero, suc, ◌+◌, ◌^◌, ◌≡◌, refl, sym, subst, ◌∙◌, Bool, true, false, ◌||◌, List, [], ◌∷◌, ◌++◌,
  Option, none, some, if◌then◌else◌, ◌==◌, arith, Bool-cases, inl, inr,
}
use dae_rs.Text.{Text, text, text_eq, is_empty}
use dae_rs.Text.Equality.{text_eq_iff}
use dae_rs.Ruleset.IpSet.{IpNet, host6}
use dae_rs.Routing.MatchSet.{MatchSet, Value, with_index, with_byte, with_name}
use dae_rs.Routing.MatchSet.MatchType
use dae_rs.Routing.Expression.{Function, Outbound, Parsed, ok, err, ◌>>=◌, unknown_function}
use dae_rs.Dns.DomainRoutes.{is_domain_function}
use dae_rs.Text.Utf8.{as_bytes}
use dae_rs.Routing.Lowering.{parse_cidr_values}
use dae_rs.Routing.Lowering.Tries.{Tries, find_or_create_lpm_trie}
use dae_rs.Routing.Lowering.Entries.{
  FunctionKind, dip_fn, sip_fn, mac_fn, dport_fn, sport_fn, l4proto_fn, ipversion_fn, domain_fn,
  process_name_fn, dscp_fn, qtype_fn, upstream_fn, kind_of, Lowering, Lowered, EntryOptions,
  entry_of, ip_entries, mac_entries, mac_nets, port_entries, port_value, dscp_entries, name_entries,
  parse_number, pure_entries, build_kind, build_match_set_for_function,
}

-- The values of the entries of type DOMAIN_SET, in order.
unfoldable pub domain_values : List MatchSet → List Value
domain_values [] = []
domain_values (ms ∷ l) =
    let rest = domain_values l in if ms.type == MatchType.domain_set then ms.value ∷ rest else rest

-- The numbers from `i` on, as indices.
unfoldable pub numbered : ℕ → ℕ → List Value
numbered i zero = []
numbered i (suc n) = with_index i ∷ numbered (suc i) n

abbrev pub is_domain_kind : Option FunctionKind → Bool
is_domain_kind none = false
is_domain_kind (some domain_fn) = true
is_domain_kind (some _) = false

pub domain_name :
    (n : Text)
    → is_domain_kind (kind_of n) ≡ (text_eq n (text "domain") || text_eq n (text "target_domain"))
unfolding kind_of
domain_name n = elim (Bool-cases (text_eq n (text "domain"))) [
  | inl e ↦ subst Agrees (sym ((text_eq_iff n (text "domain")).0 e)) (unfold text_eq in refl)
  | inr d ↦ elim (Bool-cases (text_eq n (text "target_domain"))) [
    | inl e ↦
        subst Agrees (sym ((text_eq_iff n (text "target_domain")).0 e)) (unfold text_eq in refl)
    | inr t ↦ ground (arith, d, t)
  ]
]
  where
    Agrees : Text → Type 0
    Agrees n =
        is_domain_kind (kind_of n) ≡ (text_eq n (text "domain") || text_eq n (text "target_domain"))

-- How many entries of type DOMAIN_SET a lowering step makes.
abbrev pub Counts : ℕ → Lowering → Lowering × List MatchSet → Type 0
Counts n s r =
    (r.0.rule_domain_idx ≡ s.rule_domain_idx + n)
    × (domain_values r.1 ≡ numbered s.rule_domain_idx n)

abbrev pub Counted : ℕ → Lowering → Lowered → Type 0
Counted n s (err e) = Unit {0}
Counted n s (ok r) = Counts n s r

pub Counted-bind :
    {A : Type 0} (n : ℕ) (s : Lowering) (p : Parsed A) (f : A → Lowered)
    → ((a : A) → Counted n s (f a))
    → Counted n s (p >>= f)
Counted-bind n s (err e) f h = tt
Counted-bind n s (ok a) f h = h a

domain_values-other :
    (l : List MatchSet)
    → (ms : MatchSet) → (ms.type == MatchType.domain_set) ≡ false
    → domain_values (ms ∷ l) ≡ domain_values l
unfolding domain_values
domain_values-other l ms h = rw h

-- A list of entries of another type.
abbrev OkNone : Parsed (List MatchSet) → Type 0
OkNone (err e) = Unit {0}
OkNone (ok l) = domain_values l ≡ []

OkNone-cons :
    {A : Type 0} (p : Parsed A) (q : Parsed (List MatchSet)) (f : A → MatchSet)
    → ((a : A) → ((f a).type == MatchType.domain_set) ≡ false)
    → OkNone q
    → OkNone (p >>= λ a. q >>= λ more. ok (f a ∷ more))
OkNone-cons (err e) q f h k = tt
OkNone-cons (ok a) (err e) f h k = tt
OkNone-cons (ok a) (ok l) f h k = domain_values-other l (f a) (h a) ∙ k

port_entries-OkNone :
    (o : EntryOptions) (type : ℕ) (values : List Text)
    → (type == MatchType.domain_set) ≡ false
    → OkNone (port_entries o type values)
unfolding port_entries domain_values
port_entries-OkNone o type [] h = refl
port_entries-OkNone o type (v ∷ vs) h =
    OkNone-cons (port_value v) (port_entries o type vs) (entry_of o type) (λ value. h)
      (port_entries-OkNone o type vs h)

dscp_entries-OkNone : (o : EntryOptions) (values : List Text) → OkNone (dscp_entries o values)
unfolding dscp_entries domain_values
dscp_entries-OkNone o [] = refl
dscp_entries-OkNone o (v ∷ vs) =
    OkNone-cons (parse_number (2 ^ 8) v) (dscp_entries o vs)
      (λ dscp. entry_of o MatchType.dscp (with_byte dscp)) (λ dscp. refl) (dscp_entries-OkNone o vs)

name_entries-none :
    (o : EntryOptions) (type : ℕ) (values : List Text)
    → (type == MatchType.domain_set) ≡ false
    → domain_values (name_entries o type values) ≡ []
unfolding name_entries domain_values
name_entries-none o type [] h = refl
name_entries-none o type (v ∷ vs) h =
    domain_values-other (name_entries o type vs) (entry_of o type (with_name (as_bytes v))) h
    ∙ name_entries-none o type vs h

-- No entry of type DOMAIN_SET, and the index stays.
pub none_counted :
    (s : Lowering) (t : Tries) (l : List MatchSet)
    → domain_values l ≡ []
    → Counts 0 s (record s { tries = t }, l)
unfolding numbered
none_counted s t l h = (omega arith, h)

pub domain_values_nil : domain_values [] ≡ []
unfolding domain_values
domain_values_nil = refl

Counted-pure_entries :
    (s : Lowering) (p : Parsed (List MatchSet)) → OkNone p → Counted 0 s (pure_entries s p)
Counted-pure_entries s (err e) h = tt
Counted-pure_entries s (ok l) h = none_counted s s.tries l h

single :
    (o : EntryOptions) (type : ℕ) (value : Value)
    → (type == MatchType.domain_set) ≡ false
    → domain_values (entry_of o type value ∷ []) ≡ []
unfolding domain_values
single o type value h = rw h

ip_entries-Counted :
    (o : EntryOptions) (type : ℕ) (cidrs : List IpNet) (s : Lowering)
    → (type == MatchType.domain_set) ≡ false
    → Counted 0 s (ip_entries o type cidrs s)
unfolding ip_entries
ip_entries-Counted o type cidrs s h =
    Counted-bind 0 s (find_or_create_lpm_trie cidrs s.tries) _
      λ r. none_counted s r.0 _ (single o type (with_index r.1) h)

Counted-if :
    (n : ℕ) (s : Lowering) (b : Bool) (p q : Lowered)
    → Counted n s p
    → Counted n s q
    → Counted n s (if b then p else q)
Counted-if n s true p q h k = h
Counted-if n s false p q h k = k

mac_entries-Counted :
    (o : EntryOptions) (raw_params : List Text) (s : Lowering)
    → Counted 0 s (mac_entries o raw_params s)
unfolding mac_entries domain_values
mac_entries-Counted o raw_params s =
    let nets = mac_nets raw_params ++ (if o.negated then host6 0 ∷ [] else []) in
    Counted-if 0 s (is_empty nets) _ _ (none_counted s s.tries [] refl)
      (ip_entries-Counted o MatchType.mac nets s refl)

abbrev pub one_if : Bool → ℕ
one_if true = 1
one_if false = 0

module _ (parse_net : Text → Option IpNet) (sets : Option (Text → Option (List IpNet))) where
  build_kind-Counted :
      (kind : FunctionKind) (func : Function) (values : List Text) (o : EntryOptions) (s : Lowering)
      → Counted
          (one_if (is_domain_kind (some kind)))
          s
          (build_kind parse_net sets kind func values o s)
  unfolding build_kind
  build_kind-Counted dip_fn func values o s =
      Counted-bind 0 s (parse_cidr_values parse_net sets func.raw_params) _
        λ cidrs. ip_entries-Counted o MatchType.ip_set cidrs s refl
  build_kind-Counted sip_fn func values o s =
      Counted-bind 0 s (parse_cidr_values parse_net sets func.raw_params) _
        λ cidrs. ip_entries-Counted o MatchType.source_ip_set cidrs s refl
  build_kind-Counted mac_fn func values o s = mac_entries-Counted o func.raw_params s
  build_kind-Counted dport_fn func values o s =
      Counted-pure_entries s _ (port_entries-OkNone o MatchType.port values refl)
  build_kind-Counted sport_fn func values o s =
      Counted-pure_entries s _ (port_entries-OkNone o MatchType.source_port values refl)
  build_kind-Counted l4proto_fn func values o s =
      none_counted s s.tries _ (single o MatchType.l4_proto _ refl)
  build_kind-Counted ipversion_fn func values o s =
      none_counted s s.tries _ (single o MatchType.ip_version _ refl)
  build_kind-Counted domain_fn func values o s = (refl, unfold domain_values numbered in refl)
  build_kind-Counted process_name_fn func values o s =
      none_counted s s.tries _ (name_entries-none o MatchType.process_name values refl)
  build_kind-Counted dscp_fn func values o s =
      Counted-pure_entries s _ (dscp_entries-OkNone o values)
  build_kind-Counted qtype_fn func values o s =
      none_counted s s.tries _ (single o MatchType.qtype _ refl)
  build_kind-Counted upstream_fn func values o s =
      none_counted s s.tries _ (name_entries-none o MatchType.upstream values refl)

  pub build_match_set_for_function-Counted :
      (func : Function) (values : List Text) (outbound_id : ℕ) (ov_outbound : Outbound)
      (s : Lowering)
      → Counted
          (one_if (is_domain_function func))
          s
          (build_match_set_for_function parse_net sets func values outbound_id ov_outbound s)
  unfolding build_match_set_for_function is_domain_function
  build_match_set_for_function-Counted func values outbound_id ov_outbound s =
      subst
        (λ b.
          Counted (one_if b) s
            (build_match_set_for_function parse_net sets func values outbound_id ov_outbound s))
        (domain_name func.name) (by_kind (kind_of func.name))
    where
      o : EntryOptions
      o = record { negated = func.negated; outbound_id = outbound_id; ov_outbound = ov_outbound }

      by_kind :
          (k : Option FunctionKind)
          → Counted (one_if (is_domain_kind k)) s (elim k [
            | none ↦ err unknown_function
            | some kind ↦ build_kind parse_net sets kind func values o s
          ])
      by_kind none = tt
      by_kind (some kind) = build_kind-Counted kind func values o s
