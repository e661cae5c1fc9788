-- ===== src/Tests/Enrichment.antt =====
-- The enrichment and the pipeline on a response with one address record.
use dns_flow.Prelude.{
  ℕ, arith, ◌≡◌, refl, codes, true, ◌==◌, Text, List, [], ◌∷◌, none, some, ◌⊎◌, inr, if◌then◌else◌,
  All,
}
use dns_flow.Prelude.Outcome.{returned}
use dns_flow.Domain.{DnsRawEvent, GeoipInfo}
use dns_flow.Domain.Ports.{GeoipResolver}
use dns_flow.Geoip.{MaxMindResolver, GeoError, lookup, lookup_ip}
use dns_flow.Geoip.Agree.{summary, lookup-lookup_ip}
use dns_flow.Pipeline.{enrich}
use dns_flow.Pipeline.Enrich.{All₂, AnnotatesSection, client_part, enrich-Annotates}
use dns_flow.Pipeline.Workers.{exited, Pool, start, accept, Reach, here, next}
use dns_flow.Pipeline.Workers.Account.{Balanced, Reach-Balanced}
use dns_flow.Pipeline.Workers.Drain.{Reach-drained, Reach-abandoned}
use dns_flow.Tests.{response_event, parse_sample}

abbrev resolver : MaxMindResolver ℕ
resolver = record {
  city_db = some (λ ip.
      if ip == 1
      then some (record { iso_code = codes "ID"; names = (codes "en", codes "Jakarta") ∷ [] })
      else none);
  asn_db = some (λ ip. some (record { autonomous_system_number = 64512 }));
}

lookup-lookup_ip_example :
    (r : GeoError ⊎ GeoipInfo) × (lookup parse_sample (some resolver) (codes "192.0.2.1")
      ≡ returned r)
    × (lookup_ip parse_sample (some resolver) (codes "192.0.2.1") ≡ returned (summary r))
lookup-lookup_ip_example = lookup-lookup_ip parse_sample resolver (codes "192.0.2.1")

abbrev find : Text → Text × Text × Text
find ip = (codes "ID", [], codes "AS64512")

abbrev answer : Text → GeoError ⊎ GeoipInfo
answer ip = inr (record {
  client_ip = ip;
  client_country = codes "ID";
  client_city = [];
  client_asn = codes "AS64512";
})

abbrev constant_resolver : GeoipResolver GeoError
constant_resolver = record {
  lookup = λ ip. returned (answer ip);
  lookup_ip = λ ip. returned (find ip);
}

abbrev constant_find : (ip : Text) → constant_resolver.lookup_ip ip ≡ returned (find ip)
constant_find ip = refl

enrich-Annotates_example :
    (event' : DnsRawEvent) × ((errs : List GeoError) × (enrich parse_sample constant_resolver
          response_event
        ≡ returned (event', errs)))
    × (event'.geoip
        ≡ client_part parse_sample constant_resolver find constant_find
            (answer (codes "10.0.0.7"))
            response_event)
    × All₂
        (AnnotatesSection parse_sample constant_resolver find constant_find)
        response_event.dns.resource
        event'.dns.resource
    × (record event' { geoip = response_event.geoip; dns = response_event.dns } ≡ response_event)
    × (record event'.dns { resource = response_event.dns.resource } ≡ response_event.dns)
enrich-Annotates_example =
    enrich-Annotates parse_sample constant_resolver find constant_find response_event
      (answer (codes "10.0.0.7")) refl

-- Two workers, a queue of three, two accepted events.
abbrev two_workers : Pool ℕ
two_workers = start 2 3

abbrev loaded : Pool ℕ
loaded = record two_workers { queue = 1 ∷ 2 ∷ []; accepted = 1 ∷ 2 ∷ [] }

loading : Reach two_workers loaded
unfolding start
loading = next (next here (accept 1 refl (omega arith))) (accept 2 refl (omega arith))

Reach-Balanced_example : Balanced (λ n. n == 2) loaded
Reach-Balanced_example = Reach-Balanced (λ n. n == 2) 2 3 loading

Reach-drained_example :
    (t : Pool ℕ) × Reach loaded t × (t.queue ≡ []) × (t.handled ≡ 1 ∷ 2 ∷ []) × (t.dropped ≡ [])
unfolding start
Reach-drained_example = Reach-drained loaded 1 refl

abbrev stopping : Pool ℕ
stopping = record loaded { cancelled = true }

Reach-abandoned_example :
    (t : Pool ℕ) × Reach stopping t
    × All (λ w. w ≡ exited) t.workers
    × (t.queue ≡ 1 ∷ 2 ∷ [])
    × (t.handled ≡ [])
unfolding start
Reach-abandoned_example = Reach-abandoned stopping refl (refl, (refl, tt))
