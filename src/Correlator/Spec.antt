-- ===== src/Correlator/Spec.antt =====
-- internal/usecase/correlator.go: the contract of the correlator, a partial function from a client's
-- address and a DNS id to the query that waits there, with no text keys and no map.
use mathlib.Core.Path.{fun_ext}
use dns_flow.Prelude.{
  ℕ, ◌==◌, ◌≡◌, refl, ap, Text, text_eq, text_eq_iff, Bool, Bool-ext, true, false, ◌&&◌, List, [],
  ◌∷◌, Option, none, some, if◌then◌else◌, Option-cases, inl, inr, arith,
}
use dns_flow.Prelude.Dict
use dns_flow.Prelude.Dict.{UniqueKeys, lookup-insert, lookup-delete}
use dns_flow.Domain.{DnsRawEvent}
use dns_flow.Correlator.{
  QueryEntry, QueryCorrelator, key, key_of, entry_of, store, take_entry, lookup, evict,
}
use dns_flow.Correlator.Key.{key-injective}
use dns_flow.Correlator.Evict.{keep_fresh, lookup-evict, UniqueKeys-evict}

pub data Op : Type 0 where
  query : (now : ℕ) (event : DnsRawEvent) → Op
  response : (event : DnsRawEvent) → Op
  tick : (now : ℕ) → Op

-- What a method answers: `Lookup` its Boolean, the others nothing.
unfoldable pub step : Op → QueryCorrelator → QueryCorrelator × Option Bool
step (query now event) qc = (store now event qc, none)
step (response event) qc = ((lookup event qc).0, some (lookup event qc).1)
step (tick now) qc = ((evict now qc).0, none)

unfoldable pub run : List Op → QueryCorrelator → QueryCorrelator × List (Option Bool)
run [] qc = (qc, [])
run (op ∷ ops) qc = let rest = run ops (step op qc).0 in (rest.0, (step op qc).1 ∷ rest.1)

abbrev pub Pending : Type 0
Pending = Text → ℕ → Option QueryEntry

abbrev pub pending : QueryCorrelator → Pending
pending qc ip id = Dict.lookup (key ip id) qc.entries

-- The event is of this client and this id.
abbrev pub same : DnsRawEvent → Text → ℕ → Bool
same event ip id = text_eq event.network.query_ip ip && event.dns.id == id

abbrev pub is_some {ℓ} : {A : Type ℓ} → Option A → Bool
is_some none = false
is_some (some a) = true

unfoldable pub spec_step : ℕ → Op → Pending → Pending × Option Bool
spec_step ttl (query now event) p =
    (λ ip id. if same event ip id then some (entry_of now event) else p ip id, none)
spec_step ttl (response event) p = (
  λ ip id. if same event ip id then none else p ip id,
  some (is_some (p event.network.query_ip event.dns.id)),
)
spec_step ttl (tick now) p = (λ ip id. keep_fresh now ttl (p ip id), none)

unfoldable pub spec_run : ℕ → List Op → Pending → Pending × List (Option Bool)
spec_run ttl [] p = (p, [])
spec_run ttl (op ∷ ops) p =
    let rest = spec_run ttl ops (spec_step ttl op p).0 in (rest.0, (spec_step ttl op p).1 ∷ rest.1)

pub key_of-same :
    (event : DnsRawEvent) (ip : Text) (id : ℕ)
    → text_eq (key_of event) (key ip id) ≡ same event ip id
unfolding key_of
key_of-same event ip id =
    Bool-ext _ _
      (λ h.
        let parts =
          key-injective event.network.query_ip ip event.dns.id id ((text_eq_iff _ _).0 h) in
        ground (arith, text_eq_iff event.network.query_ip ip, parts.0, parts.1))
      (λ h. (text_eq_iff _ _).1 (ground (arith, text_eq_iff event.network.query_ip ip)))

pub ttl-step : (op : Op) (qc : QueryCorrelator) → (step op qc).0.ttl ≡ qc.ttl
unfolding step store lookup evict
ttl-step (query now event) qc = refl
ttl-step (response event) qc = ground arith
ttl-step (tick now) qc = refl

pub UniqueKeys-step :
    (op : Op) (qc : QueryCorrelator) → UniqueKeys qc.entries → UniqueKeys (step op qc).0.entries
unfolding step store lookup
UniqueKeys-step (query now event) qc u =
    Dict.UniqueKeys-insert (key_of event) (entry_of now event) qc.entries u
UniqueKeys-step (response event) qc u =
    elim (Option-cases (Dict.lookup (key_of event) qc.entries)) [
      | inl missing ↦ rw (missing, take_entry) u
      | inr (entry, found) ↦
          rw (found, take_entry) (Dict.UniqueKeys-delete (key_of event) qc.entries u)
    ]
UniqueKeys-step (tick now) qc u = UniqueKeys-evict now qc u

lookup_pending :
    (event : DnsRawEvent) (qc : QueryCorrelator) (ip : Text) (id : ℕ)
    → pending (lookup event qc).0 ip id ≡ (if same event ip id then none else pending qc ip id)
unfolding lookup
lookup_pending event qc ip id = ground (
  arith,
  text_eq_iff (key_of event) (key ip id),
  key_of-same event ip id,
  lookup-delete (key_of event) (key ip id) qc.entries,
)

lookup_found :
    (event : DnsRawEvent) (qc : QueryCorrelator)
    → (lookup event qc).1 ≡ is_some (pending qc event.network.query_ip event.dns.id)
unfolding lookup key_of
lookup_found event qc = ground arith

pub step-pending :
    (op : Op) (qc : QueryCorrelator) (ip : Text) (id : ℕ)
    → UniqueKeys qc.entries
    → pending (step op qc).0 ip id ≡ (spec_step qc.ttl op (pending qc)).0 ip id
unfolding step spec_step store
step-pending (query now event) qc ip id u = rw (lookup-insert, key_of-same)
step-pending (response event) qc ip id u = lookup_pending event qc ip id
step-pending (tick now) qc ip id u = lookup-evict now qc (key ip id) u

step-reply :
    (op : Op) (qc : QueryCorrelator) → (step op qc).1 ≡ (spec_step qc.ttl op (pending qc)).1
unfolding step spec_step
step-reply (query now event) qc = refl
step-reply (response event) qc = ap some (lookup_found event qc)
step-reply (tick now) qc = refl

-- Every sequence of calls of `Store`, `Lookup` and `evict`, from any state of the map in which no
-- key stands twice, leaves the map that the contract describes and gives the contract's answers.
pub run-refines :
    (ops : List Op) (qc : QueryCorrelator)
    → UniqueKeys qc.entries
    → (pending (run ops qc).0 ≡ (spec_run qc.ttl ops (pending qc)).0)
      × ((run ops qc).1 ≡ (spec_run qc.ttl ops (pending qc)).1)
unfolding run spec_run
run-refines [] qc u = (refl, refl)
run-refines (op ∷ ops) qc u =
    let moved : pending (step op qc).0 ≡ (spec_step qc.ttl op (pending qc)).0 =
      fun_ext (λ ip. fun_ext (λ id. step-pending op qc ip id u)) in
    let ih = rw (ttl-step op qc) at (run-refines ops (step op qc).0 (UniqueKeys-step op qc u)) in
    rw (← moved, ← step-reply op qc) (ih.0, ap (λ rs. (step op qc).1 ∷ rs) ih.1)
