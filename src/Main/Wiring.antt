-- ===== src/Main/Wiring.antt =====
-- cmd/dns-flow/main.go: the adapters as the main program sets them up.
use dns_flow.Prelude.{ℕ, ◌≡◌, refl, Text, Bool, true, List, Option, some, inl, All}
use dns_flow.Prelude.Outcome.{returned, panicked}
use dns_flow.Domain.{DnsRawEvent}
use dns_flow.Domain.Ports.{Storage}
use dns_flow.Correlator.{QueryCorrelator}
use dns_flow.Config.{Config, InfluxdbOutputConfig}
use dns_flow.Geoip.{GeoError, CityDb, AsnDb, new_max_mind_resolver}
use dns_flow.Pipeline.{process_event}
use dns_flow.Pipeline.Panic.{process_event-panics}
use dns_flow.Influx.V1.{Request, Response, Sent, migrate}
use dns_flow.Influx.V1.Retention.{IsSetup, migrate-IsSetup}
use dns_flow.Main.{init_geoip, resolver_pointer, influxdb_config}

module _ {Ip W E : Type 0} (parse_ip : Text → Option Ip) (open_city : Text → Option (CityDb Ip))
    (open_asn : Text → Option (AsnDb Ip)) where
  -- With the enrichment enabled and a database that cannot be opened, `processEvent` with the
  -- resolver of `initGeoIP` panics on every event whose query address parses, whatever the storages
  -- and the state of the correlator.
  pub process_event-init_geoip :
      (cfg : Config) (e : GeoError) (storages : List (Storage W E)) (now : ℕ) (event : DnsRawEvent)
      (qc : QueryCorrelator) (w : W) (ip : Ip)
      → cfg.pipeline.enrichment.geoip_enabled ≡ true
      → new_max_mind_resolver open_city open_asn cfg.geoip.maxmind_db_path cfg.geoip.asn_db_path
        ≡ inl e
      → parse_ip event.network.query_ip ≡ some ip
      → process_event parse_ip storages (init_geoip parse_ip open_city open_asn cfg) now event qc w
        ≡ panicked
  unfolding init_geoip resolver_pointer
  process_event-init_geoip cfg e storages now event qc w ip on failed parsed =
      rw (on, failed) (process_event-panics parse_ip storages now event qc w ip parsed)

-- Whatever retention the configuration of the InfluxDB output asks for, `Migrate` of the writer that
-- `initStorages` makes of it sends nothing but the question for the databases and the creation of
-- the database.
pub migrate-influxdb_config :
    (base64 query_escape : Text → Text) (valid_url : Text → Bool)
    (respond : Request → Option Response) (o : InfluxdbOutputConfig)
    → (s : Sent) × (migrate base64 query_escape valid_url respond (influxdb_config o) ≡ returned s)
      × All (IsSetup base64 query_escape valid_url respond (influxdb_config o)) s.requests
unfolding influxdb_config
migrate-influxdb_config base64 query_escape valid_url respond o =
    migrate-IsSetup base64 query_escape valid_url respond (influxdb_config o) refl
