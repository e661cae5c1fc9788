-- ===== src/Tests/Correlation.antt =====
-- The correlator on a query, its response, and an eviction.
use dns_flow.Prelude.{
  ℕ, ◌*◌, ◌≡◌, refl, arith, none, some, show, text_eq, true, false, List, [], ◌∷◌,
}
use dns_flow.Prelude.Dict
use dns_flow.Correlator.{
  QueryCorrelator, entry_of, new_query_correlator, second, store, lookup, evict, is_stale, key_of,
  key,
}
use dns_flow.Correlator.Spec.{Op, query, response, tick, step, run, pending, spec_run, run-refines}
use dns_flow.Correlator.Answer.{WarnedOf, lookup-store, lookup-lookup}
use dns_flow.Correlator.Answer.Expiry.{lookup-evict_expired}
use dns_flow.Tests.{query_event, response_event, other_event}

abbrev traffic : List Op
traffic = query 100 other_event ∷ tick (20 * second) ∷ []

abbrev session : List Op
session =
    query 5 query_event
    ∷ tick (10 * second)
    ∷ response response_event
    ∷ response response_event
    ∷ []

session_answers : (run session new_query_correlator).1 ≡ none ∷ none ∷ some true ∷ some false ∷ []
unfolding run step lookup Dict.lookup evict store Dict.insert new_query_correlator is_stale entry_of
    text_eq key_of key show Dict.delete
session_answers = refl

run-refines_example :
    (pending (run session new_query_correlator).0
      ≡ (spec_run new_query_correlator.ttl session (pending new_query_correlator)).0)
    × ((run session new_query_correlator).1
        ≡ (spec_run new_query_correlator.ttl session (pending new_query_correlator)).1)
unfolding new_query_correlator
run-refines_example = run-refines session new_query_correlator tt

abbrev same_id : ℕ
same_id = 53

lookup-store_example :
    ((lookup response_event (run traffic (store 5 query_event new_query_correlator)).0).1 ≡ true)
    × WarnedOf
        (entry_of 5 query_event)
        query_event
        response_event
        (lookup response_event (run traffic (store 5 query_event new_query_correlator)).0).2
unfolding new_query_correlator text_eq
lookup-store_example =
    lookup-store 5 (20 * second) query_event response_event traffic new_query_correlator tt
      (ground arith) (refl, (omega arith, tt)) refl refl

abbrev answered : QueryCorrelator
answered = (run traffic (lookup response_event new_query_correlator).0).0

lookup-lookup_example : lookup response_event answered ≡ (answered, false, [])
unfolding new_query_correlator text_eq
lookup-lookup_example =
    lookup-lookup response_event response_event traffic new_query_correlator tt (refl, (tt, tt))
      refl refl

abbrev evicted : QueryCorrelator
evicted =
    (run traffic
      (evict (40 * second) (run traffic (store 5 query_event new_query_correlator)).0).0).0

lookup-evict_expired_example : lookup response_event evicted ≡ (evicted, false, [])
unfolding new_query_correlator text_eq
lookup-evict_expired_example =
    lookup-evict_expired 5 (40 * second) query_event response_event traffic traffic
      new_query_correlator tt (ground arith) (refl, (tt, tt)) (refl, (tt, tt)) refl refl
