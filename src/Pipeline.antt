-- ===== src/Pipeline.antt =====
-- internal/usecase/pipeline.go: the work on one event. The queue and the workers are in
-- Pipeline/Workers.antt.
--
-- Parameters: `net.ParseIP`, as `parse_ip`, and the storages and the resolver behind their
-- interfaces. The map of resource records is walked in the order of its list.
pub mod Enrich
pub mod Workers
pub mod Health
pub mod Panic
use dns_flow.Prelude.{
  ℕ, Text, codes, text_eq, Bool, true, false, not, ◌&&◌, ◌||◌, List, [], ◌∷◌, ◌++◌, Option, none,
  some, ◌⊎◌, inl, inr, if◌then◌else◌,
}
use dns_flow.Prelude.Dict.{Dict}
use dns_flow.Prelude.Outcome.{Outcome, returned, ◌>>=◌, traverse}
use dns_flow.Domain.{DnsRawEvent, Dnsrr, GeoipInfo}
use dns_flow.Domain.Ports.{Storage, GeoipResolver, write_storages}
use dns_flow.Correlator.{QueryCorrelator, Warning, store, lookup}

pub data Log (E G : Type 0) : Type 0 where
  orphaned_response : DnsRawEvent → Log E G
  correlation : List Warning → Log E G
  geoip_failed : G → Log E G
  write_failed : List (Text × E) → Log E G

-- The first part of `processEvent`: responses are looked up, queries are stored.
unfoldable pub correlate :
    {E G : Type 0} → ℕ → DnsRawEvent → QueryCorrelator → QueryCorrelator × List (Log E G)
correlate now event qc =
    if event.dns.flags.qr
    then (let (qc', found, warnings) = lookup event qc in
        (qc', if found then correlation warnings ∷ [] else orphaned_response event ∷ []))
    else (store now event qc, [])

unfoldable pub is_address : Dnsrr → Bool
is_address rr =
    not (not (text_eq rr.rdata_type (codes "A")) && not (text_eq rr.rdata_type (codes "AAAA")))

unfoldable pub with_geo : Dnsrr → Text × Text × Text → Dnsrr
with_geo rr (country, city, asn) =
    if not (text_eq country []) || not (text_eq city []) || not (text_eq asn [])
    then record rr { geo = some (record { country = country; city = city; asn = asn }) }
    else rr

unfoldable pub with_info : DnsRawEvent → GeoipInfo → DnsRawEvent
with_info event geo = record event {
  geoip = record {
    client_ip = geo.client_ip;
    client_country = geo.client_country;
    client_city = geo.client_city;
    client_asn = geo.client_asn;
  };
}

module _ {Ip G : Type 0} (parse_ip : Text → Option Ip) (geoip : GeoipResolver G) where
  -- The body of the inner loop, for one resource record.
  unfoldable pub enrich_rr : Dnsrr → Outcome Dnsrr
  enrich_rr rr =
      if is_address rr
      then (elim (parse_ip rr.rdata) [
        | none ↦ returned rr
        | some ip ↦ (do found ← geoip.lookup_ip rr.rdata; returned (with_geo rr found))
      ])
      else returned rr

  unfoldable pub enrich_section : Text × List Dnsrr → Outcome (Text × List Dnsrr)
  enrich_section (section, rrs) = do rrs' ← traverse enrich_rr rrs; returned (section, rrs')

  unfoldable pub enrich_client : DnsRawEvent → Outcome (DnsRawEvent × List G)
  enrich_client event = do
    answer ← geoip.lookup event.network.query_ip
    returned (elim answer [ inl e ↦ (event, e ∷ []) | inr info ↦ (with_info event info, []) ])

  unfoldable pub enrich : DnsRawEvent → Outcome (DnsRawEvent × List G)
  enrich event = do
    client ← enrich_client event
    resource ← traverse enrich_section event.dns.resource
    returned (record client.0 { dns = record event.dns { resource = resource } }, client.1)

pub record Processed (W E G : Type 0) : Type 0 where
  pub correlator : QueryCorrelator
  pub world : W
  pub event : DnsRawEvent
  pub logs : List (Log E G)

unfoldable pub log_geoip : {E G : Type 0} → List G → List (Log E G)
log_geoip [] = []
log_geoip (e ∷ es) = geoip_failed e ∷ []

module _ {Ip G : Type 0} (parse_ip : Text → Option Ip) where
  -- With no resolver the event passes unchanged.
  unfoldable pub enrich_with :
      Option (GeoipResolver G) → DnsRawEvent → Outcome (DnsRawEvent × List G)
  enrich_with none event = returned (event, [])
  enrich_with (some geoip) event = enrich parse_ip geoip event

-- The last loop of `processEvent`.
unfoldable pub deliver :
    {W E G : Type 0}
    → List (Storage W E)
    → DnsRawEvent
    → W
    → QueryCorrelator
    → List (Log E G)
    → Processed W E G
deliver storages event w qc logs =
    let written = write_storages storages event w in
    record {
      correlator = qc;
      world = written.0;
      event = event;
      logs = logs ++ write_failed written.1 ∷ [];
    }

module _ {Ip W E G : Type 0} (parse_ip : Text → Option Ip) where
  unfoldable pub process_event :
      List (Storage W E)
      → Option (GeoipResolver G)
      → ℕ
      → DnsRawEvent
      → QueryCorrelator
      → W
      → Outcome (Processed W E G)
  process_event storages geoip now event qc w =
      let (qc', logs) = correlate {E = E} {G = G} now event qc in
      do
        enriched ← enrich_with parse_ip geoip event
        returned (deliver storages enriched.0 w qc' (logs ++ log_geoip enriched.1))
