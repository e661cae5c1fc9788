-- ===== src/Correlator/Answer/Expiry.antt =====
-- internal/usecase/correlator.go: responses that come after an eviction.
use dns_flow.Prelude.{
  ℕ, ◌-◌, ◌<◌, ◌≡◌, refl, false, List, [], ◌∷◌, Option, none, some, All, arith, inr, ◌⊎◌, ◌∙◌,
}
use dns_flow.Prelude.Dict.{UniqueKeys}
use dns_flow.Domain.{DnsRawEvent}
use dns_flow.Correlator.{QueryEntry, QueryCorrelator, entry_of, store, lookup, evict, is_stale}
use dns_flow.Correlator.Spec.{
  Op, query, response, tick, step, run, pending, spec_step, step-pending, ttl-step, UniqueKeys-step,
}
use dns_flow.Correlator.Answer.{
  NoStore, run-NoStore, UniqueKeys-run, UniqueKeys-store, ttl-store, store_pending, lookup-of_none,
}
use dns_flow.Prelude.{Text}

-- The slot is empty or holds this very entry.
abbrev AtMost : QueryEntry → Option QueryEntry → Type 0
AtMost entry slot = (slot ≡ none) ⊎ (slot ≡ some entry)

step-AtMost :
    (op : Op) (qc : QueryCorrelator) (ip : Text) (id : ℕ) (entry : QueryEntry)
    → UniqueKeys qc.entries
    → NoStore ip id op
    → AtMost entry (pending qc ip id)
    → AtMost entry (pending (step op qc).0 ip id)
unfolding spec_step
step-AtMost (query now event) qc ip id entry u h e =
    rw (step-pending (query now event) qc ip id u, h) e
step-AtMost (response event) qc ip id entry u h e =
    rw (step-pending (response event) qc ip id u) (ground arith)
step-AtMost (tick now) qc ip id entry u h e = rw (step-pending (tick now) qc ip id u) (ground arith)

run-AtMost :
    (ops : List Op) (qc : QueryCorrelator) (ip : Text) (id : ℕ) (entry : QueryEntry)
    → UniqueKeys qc.entries
    → All (NoStore ip id) ops
    → AtMost entry (pending qc ip id)
    → (AtMost entry (pending (run ops qc).0 ip id)) × ((run ops qc).0.ttl ≡ qc.ttl)
unfolding run
run-AtMost [] qc ip id entry u h e = (e, refl)
run-AtMost (op ∷ ops) qc ip id entry u h e =
    let ih =
      run-AtMost ops (step op qc).0 ip id entry (UniqueKeys-step op qc u) h.1
        (step-AtMost op qc ip id entry u h.0 e) in
    (ih.0, ih.1 ∙ ttl-step op qc)

evict_stale :
    (now : ℕ) (qc : QueryCorrelator) (ip : Text) (id : ℕ) (entry : QueryEntry)
    → UniqueKeys qc.entries
    → qc.ttl < now - entry.stored_at
    → AtMost entry (pending qc ip id)
    → pending (evict now qc).0 ip id ≡ none
unfolding spec_step is_stale step
evict_stale now qc ip id entry u old e = step-pending (tick now) qc ip id u ∙ ground arith

UniqueKeys-evict_op :
    (now : ℕ) (qc : QueryCorrelator) → UniqueKeys qc.entries → UniqueKeys (evict now qc).0.entries
unfolding step
UniqueKeys-evict_op now qc u = UniqueKeys-step (tick now) qc u

-- Once an eviction ran more than the ttl after a query was stored, a response of its client and id
-- is an orphan and changes nothing, whatever other calls came between and after, as long as no
-- query of this client and id is stored again.
pub lookup-evict_expired :
    (now later : ℕ) (q r : DnsRawEvent) (ops ops' : List Op) (qc : QueryCorrelator)
    → UniqueKeys qc.entries
    → qc.ttl < later - now
    → All (NoStore q.network.query_ip q.dns.id) ops
    → All (NoStore q.network.query_ip q.dns.id) ops'
    → r.network.query_ip ≡ q.network.query_ip
    → r.dns.id ≡ q.dns.id
    → let qc' = (run ops' (evict later (run ops (store now q qc)).0).0).0 in
      lookup r qc' ≡ (qc', false, [])
lookup-evict_expired now later q r ops ops' qc u old quiet quiet' same_ip same_id =
    let ip = q.network.query_ip in
    let id = q.dns.id in
    let stored = store now q qc in
    let u₁ = UniqueKeys-store now q qc u in
    let before =
      run-AtMost ops stored ip id (entry_of now q) u₁ quiet (inr (store_pending now q qc u)) in
    let u₂ = UniqueKeys-run ops stored u₁ in
    let limit : (run ops stored).0.ttl < later - now = rw (before.1, ttl-store now q qc) old in
    let gone =
      evict_stale later (run ops stored).0 ip id (entry_of now q) u₂ (unfold entry_of in limit)
        before.0 in
    let after = (evict later (run ops stored).0).0 in
    lookup-of_none r (run ops' after).0 (
      rw (same_ip, same_id)
        (run-NoStore ops' after ip id (UniqueKeys-evict_op later (run ops stored).0 u₂) quiet'
          gone))
