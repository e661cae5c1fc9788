-- ===== src/Correlator/Answer.antt =====
-- internal/usecase/correlator.go: responses that are looked up after other calls.
pub mod Expiry
use dns_flow.Prelude.{
  ℕ, ◌==◌, ◌-◌, ◌≤◌, ◌<◌, ◌*◌, ◌≡◌, ◌≢◌, refl, sym, Bool-cases, Text, text_eq, text_eq_iff, Bool,
  true, false, ◌||◌, List, [], ◌∷◌, Option, none, some, if◌then◌else◌, All, arith, inl, inr, ◌⊎◌,
  ◌∙◌,
}
use dns_flow.Prelude.Dict.{UniqueKeys}
use dns_flow.Domain.{DnsRawEvent}
use dns_flow.Correlator.{
  QueryEntry, QueryCorrelator, Warning, mismatch, key, key_of, entry_of, store, take_entry, lookup,
  evict, is_stale, mismatches,
}
use dns_flow.Correlator.Evict.{keep_fresh}
use dns_flow.Correlator.Spec.{
  Op, query, response, tick, step, run, Pending, pending, same, spec_step, spec_run, step-pending,
  ttl-step, UniqueKeys-step,
}

-- The call neither stores nor looks up this client and id, and no eviction comes later than `until`.
abbrev pub Leaves : Text → ℕ → ℕ → Op → Type 0
Leaves ip id until (query now event) = same event ip id ≡ false
Leaves ip id until (response event) = same event ip id ≡ false
Leaves ip id until (tick now) = now ≤ until

-- The call does not store this client and id.
abbrev pub NoStore : Text → ℕ → Op → Type 0
NoStore ip id (query now event) = same event ip id ≡ false
NoStore ip id (response event) = Unit
NoStore ip id (tick now) = Unit

step-Leaves :
    (op : Op) (qc : QueryCorrelator) (ip : Text) (id until : ℕ) {entry : QueryEntry}
    → UniqueKeys qc.entries
    → until - entry.stored_at ≤ qc.ttl
    → Leaves ip id until op
    → pending qc ip id ≡ some entry
    → pending (step op qc).0 ip id ≡ some entry
unfolding spec_step is_stale
step-Leaves (query now event) qc ip id until u fits h e =
    rw (step-pending (query now event) qc ip id u, h) e
step-Leaves (response event) qc ip id until u fits h e =
    rw (step-pending (response event) qc ip id u, h) e
step-Leaves (tick now) qc ip id until u fits h e =
    rw (step-pending (tick now) qc ip id u, e) (ground arith)

run-Leaves :
    (ops : List Op) (qc : QueryCorrelator) (ip : Text) (id until : ℕ) {entry : QueryEntry}
    → UniqueKeys qc.entries
    → until - entry.stored_at ≤ qc.ttl
    → All (Leaves ip id until) ops
    → pending qc ip id ≡ some entry
    → pending (run ops qc).0 ip id ≡ some entry
unfolding run
run-Leaves [] qc ip id until u fits h e = e
run-Leaves (op ∷ ops) qc ip id until {entry} u fits h e =
    run-Leaves ops (step op qc).0 ip id until (UniqueKeys-step op qc u) (rw (ttl-step op qc) fits)
      h.1 (step-Leaves op qc ip id until u fits h.0 e)

step-NoStore :
    (op : Op) (qc : QueryCorrelator) (ip : Text) (id : ℕ)
    → UniqueKeys qc.entries
    → NoStore ip id op
    → pending qc ip id ≡ none
    → pending (step op qc).0 ip id ≡ none
unfolding spec_step
step-NoStore (query now event) qc ip id u h e = rw (step-pending (query now event) qc ip id u, h) e
step-NoStore (response event) qc ip id u h e =
    rw (step-pending (response event) qc ip id u) (ground arith)
step-NoStore (tick now) qc ip id u h e = rw (step-pending (tick now) qc ip id u, e) refl

pub run-NoStore :
    (ops : List Op) (qc : QueryCorrelator) (ip : Text) (id : ℕ)
    → UniqueKeys qc.entries
    → All (NoStore ip id) ops
    → pending qc ip id ≡ none
    → pending (run ops qc).0 ip id ≡ none
unfolding run
run-NoStore [] qc ip id u h e = e
run-NoStore (op ∷ ops) qc ip id u h e =
    run-NoStore ops (step op qc).0 ip id (UniqueKeys-step op qc u) h.1
      (step-NoStore op qc ip id u h.0 e)

pub store_pending :
    (now : ℕ) (event : DnsRawEvent) (qc : QueryCorrelator)
    → UniqueKeys qc.entries
    → pending (store now event qc) event.network.query_ip event.dns.id ≡ some (entry_of now event)
unfolding step spec_step
store_pending now event qc u =
    let e = step-pending (query now event) qc event.network.query_ip event.dns.id u in
    e ∙ ground (arith, text_eq_iff event.network.query_ip event.network.query_ip)

pub UniqueKeys-run :
    (ops : List Op) (qc : QueryCorrelator)
    → UniqueKeys qc.entries
    → UniqueKeys (run ops qc).0.entries
unfolding run
UniqueKeys-run [] qc u = u
UniqueKeys-run (op ∷ ops) qc u = UniqueKeys-run ops (step op qc).0 (UniqueKeys-step op qc u)

pub UniqueKeys-store :
    (now : ℕ) (event : DnsRawEvent) (qc : QueryCorrelator)
    → UniqueKeys qc.entries
    → UniqueKeys (store now event qc).entries
unfolding step
UniqueKeys-store now event qc u = UniqueKeys-step (query now event) qc u

pub ttl-store :
    (now : ℕ) (event : DnsRawEvent) (qc : QueryCorrelator) → (store now event qc).ttl ≡ qc.ttl
unfolding store
ttl-store now event qc = refl

lookup-of_some :
    (r : DnsRawEvent) (qc : QueryCorrelator) {entry : QueryEntry}
    → pending qc r.network.query_ip r.dns.id ≡ some entry
    → ((lookup r qc).1 ≡ true)
      × ((lookup r qc).2 ≡ (if mismatches entry r then mismatch entry r ∷ [] else []))
unfolding lookup key_of
lookup-of_some r qc e = rw (e, take_entry) (refl, refl)

pub lookup-of_none :
    (r : DnsRawEvent) (qc : QueryCorrelator)
    → pending qc r.network.query_ip r.dns.id ≡ none
    → lookup r qc ≡ (qc, false, [])
unfolding lookup key_of
lookup-of_none r qc e = rw (e, take_entry) refl

-- The warnings are none where the response has the name and the type of the query, and else one,
-- of a mismatch.
abbrev pub WarnedOf : QueryEntry → DnsRawEvent → DnsRawEvent → List Warning → Type 0
WarnedOf entry q r warnings =
    ((r.dns.qname ≡ q.dns.qname) × (r.dns.qtype ≡ q.dns.qtype) × (warnings ≡ []))
    ⊎ (((r.dns.qname ≢ q.dns.qname) ⊎ (r.dns.qtype ≢ q.dns.qtype))
        × (warnings ≡ mismatch entry r ∷ []))

warned :
    (now : ℕ) (q r : DnsRawEvent)
    → WarnedOf
        (entry_of now q)
        q
        r
        (if mismatches (entry_of now q) r then mismatch (entry_of now q) r ∷ [] else [])
unfolding mismatches entry_of
warned now q r =
    let name = text_eq_iff q.dns.qname r.dns.qname in
    let type_ = text_eq_iff q.dns.qtype r.dns.qtype in
    elim (Bool-cases (text_eq q.dns.qname r.dns.qname)) [
      | inl n ↦ elim (Bool-cases (text_eq q.dns.qtype r.dns.qtype)) [
        | inl t ↦ rw (n, t) (inl (sym (name.0 n), sym (type_.0 t), refl))
        | inr t ↦ rw (n, t) (inr (inr (λ e. let same = type_.1 (sym e) in cc), refl))
      ]
      | inr n ↦ rw n (inr (inl (λ e. let same = name.1 (sym e) in cc), refl))
    ]

-- A query stored at `now` is found by a response of the same client address and DNS id, after any
-- calls for other clients or ids and any evictions up to a time `until` that is within the ttl of
-- `now`, if the entries have no key twice; there is no warning if the response has the name and the
-- type of the query, and else one warning, of a mismatch.
pub lookup-store :
    (now until : ℕ) (q r : DnsRawEvent) (ops : List Op) (qc : QueryCorrelator)
    → UniqueKeys qc.entries
    → until - now ≤ qc.ttl
    → All (Leaves q.network.query_ip q.dns.id until) ops
    → r.network.query_ip ≡ q.network.query_ip
    → r.dns.id ≡ q.dns.id
    → ((lookup r (run ops (store now q qc)).0).1 ≡ true)
      × WarnedOf (entry_of now q) q r (lookup r (run ops (store now q qc)).0).2
lookup-store now until q r ops qc u fits quiet same_ip same_id =
    let found = lookup-of_some r (run ops (store now q qc)).0 (
      rw (same_ip, same_id)
        (run-Leaves ops (store now q qc) q.network.query_ip q.dns.id until
          (UniqueKeys-store now q qc u) (rw (ttl-store now q qc) (unfold entry_of in fits)) quiet
          (store_pending now q qc u))) in
    (found.0, rw (found.1) (warned now q r))

lookup_clears :
    (r : DnsRawEvent) (qc : QueryCorrelator) (ip : Text) (id : ℕ)
    → UniqueKeys qc.entries
    → r.network.query_ip ≡ ip
    → r.dns.id ≡ id
    → pending (lookup r qc).0 ip id ≡ none
unfolding step spec_step
lookup_clears r qc ip id u same_ip same_id =
    step-pending (response r) qc ip id u
    ∙ ground (arith, text_eq_iff r.network.query_ip ip, same_ip, same_id)

UniqueKeys-lookup :
    (r : DnsRawEvent) (qc : QueryCorrelator)
    → UniqueKeys qc.entries
    → UniqueKeys (lookup r qc).0.entries
unfolding step
UniqueKeys-lookup r qc u = UniqueKeys-step (response r) qc u

-- A query is answered at most once: after a response was looked up, found or not, a response of
-- the same client and id is an orphan and changes nothing, until such a query is stored again.
pub lookup-lookup :
    (r r' : DnsRawEvent) (ops : List Op) (qc : QueryCorrelator)
    → UniqueKeys qc.entries
    → All (NoStore r.network.query_ip r.dns.id) ops
    → r'.network.query_ip ≡ r.network.query_ip
    → r'.dns.id ≡ r.dns.id
    → let qc' = (run ops (lookup r qc).0).0 in lookup r' qc' ≡ (qc', false, [])
lookup-lookup r r' ops qc u quiet same_ip same_id = lookup-of_none r' (run ops (lookup r qc).0).0 (
    rw (same_ip, same_id)
      (run-NoStore ops (lookup r qc).0 r.network.query_ip r.dns.id (UniqueKeys-lookup r qc u) quiet
        (lookup_clears r qc r.network.query_ip r.dns.id u refl refl)))
