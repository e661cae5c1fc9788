-- ===== src/Pipeline/Panic.antt =====
-- internal/usecase/pipeline.go: `processEvent` with the pointers that the resolver may be.
use dns_flow.Prelude.{ℕ, Text, Option, none, some, List, ◌≡◌, ◌⊎◌}
use dns_flow.Prelude.Outcome.{returned, panicked}
use dns_flow.Domain.{DnsRawEvent, GeoipInfo}
use dns_flow.Domain.Ports.{Storage, GeoipResolver}
use dns_flow.Correlator.{QueryCorrelator, lookup}
use dns_flow.Geoip
use dns_flow.Geoip.{MaxMindResolver, GeoError, as_resolver}
use dns_flow.Pipeline.{enrich, enrich_client, enrich_with, process_event}
use dns_flow.Pipeline.Enrich.{All₂, AnnotatesSection, client_part}

module _ {Ip W E : Type 0} (parse_ip : Text → Option Ip) (storages : List (Storage W E)) (now : ℕ)
    (event : DnsRawEvent) (qc : QueryCorrelator) (w : W) where
  -- The pointers that `initGeoIP` is meant to produce, as values of the interface.
  abbrev pub sound_resolver : Option (MaxMindResolver Ip) → Option (GeoipResolver GeoError)
  sound_resolver none = none
  sound_resolver (some m) = some (as_resolver parse_ip (some m))

  -- The event with its enrichment: by the two lookups of the resolver at the query address and at
  -- the addresses of the records, in two places; or the event itself with no resolver.
  abbrev pub Enriched : Option (MaxMindResolver Ip) → DnsRawEvent → Type 0
  Enriched none event' = event' ≡ event
  Enriched (some m) event' =
      let geoip = as_resolver parse_ip (some m) in
      (find : Text → Text × Text × Text) × (found : (ip : Text)
        → geoip.lookup_ip ip ≡ returned (find ip))
      × (answer : GeoError ⊎ GeoipInfo) × (geoip.lookup event.network.query_ip ≡ returned answer)
      × (event'.geoip ≡ client_part parse_ip geoip find found answer event)
      × All₂ (AnnotatesSection parse_ip geoip find found) event.dns.resource event'.dns.resource
      × (record event' { geoip = event.geoip; dns = event.dns } ≡ event)
      × (record event'.dns { resource = event.dns.resource } ≡ event.dns)

  lookup_nil :
      (ip : Text) (parsed : Ip)
      → parse_ip ip ≡ some parsed
      → Geoip.lookup parse_ip none ip ≡ panicked
  unfolding Geoip.lookup
  lookup_nil ip parsed h = rw (h, Geoip.lookup)

  -- With a nil pointer behind the interface `processEvent` panics on every event whose query
  -- address parses, before anything is written to a storage.
  pub process_event-panics :
      (ip : Ip)
      → parse_ip event.network.query_ip ≡ some ip
      → process_event parse_ip storages (some (as_resolver parse_ip none)) now event qc w ≡ panicked
  unfolding process_event enrich_with enrich enrich_client as_resolver
  process_event-panics ip h = rw (lookup_nil event.network.query_ip ip h)
