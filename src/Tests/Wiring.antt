-- ===== src/Tests/Wiring.antt =====
-- The wiring of the main program with a database that is missing and a server that refuses.
use dns_flow.Prelude.{
  ℕ, ◌≡◌, refl, codes, text_eq, true, false, Text, Bool, [], ◌∷◌, Option, none, some, All,
}
use dns_flow.Prelude.Int.{pos}
use dns_flow.Prelude.Outcome.{returned, panicked}
use dns_flow.Correlator.{new_query_correlator}
use dns_flow.Config.{Config, InfluxdbOutputConfig}
use dns_flow.Geoip.{open_city_failed, new_max_mind_resolver, CityDb, AsnDb}
use dns_flow.Pipeline.{process_event}
use dns_flow.Influx.V1.{Request, Response, Sent, migrate}
use dns_flow.Influx.V1.Retention.{IsSetup}
use dns_flow.Kafka.Topic.{Broker}
use dns_flow.Main.Storages.{Output, outputs}
use dns_flow.Main.{init_geoip, influxdb_config}
use dns_flow.Main.Wiring.{process_event-init_geoip, migrate-influxdb_config}
use dns_flow.Tests.{query_event, parse_sample, name_storage, minimal}

abbrev enriching : Config
enriching = record minimal {
  pipeline = record minimal.pipeline {
    enrichment = record minimal.pipeline.enrichment { geoip_enabled = true };
  };
  geoip = record { maxmind_db_path = codes "/missing.mmdb"; asn_db_path = [] };
}

abbrev no_city : Text → Option (CityDb ℕ)
no_city path = none

abbrev no_asn : Text → Option (AsnDb ℕ)
no_asn path = none

process_event-init_geoip_example :
    process_event parse_sample
      (name_storage ∷ [])
      (init_geoip parse_sample no_city no_asn enriching)
      5
      query_event
      new_query_correlator
      []
    ≡ panicked
unfolding new_max_mind_resolver text_eq
process_event-init_geoip_example =
    process_event-init_geoip parse_sample no_city no_asn enriching
      (open_city_failed (codes "/missing.mmdb")) (name_storage ∷ []) 5 query_event
      new_query_correlator [] 7 refl refl refl

abbrev thirty_days : InfluxdbOutputConfig
thirty_days = record {
  url = codes "http://influx:8086";
  database = codes "dns";
  username = [];
  password = [];
  retention_policy = [];
  retention_days = pos 30;
  measurement = [];
}

abbrev refuse : Request → Option Response
refuse request = some (record { status = 500; body = [] })

abbrev same_text : Text → Text
same_text s = s

abbrev any_url : Text → Bool
any_url s = true

migrate-influxdb_config_example :
    (s : Sent) × (migrate same_text same_text any_url refuse (influxdb_config thirty_days)
      ≡ returned s)
    × All (IsSetup same_text same_text any_url refuse (influxdb_config thirty_days)) s.requests
migrate-influxdb_config_example =
    migrate-influxdb_config same_text same_text any_url refuse thirty_days

-- A configuration that sets no flush interval.
abbrev no_interval : Config
no_interval = record minimal {
  kafka = record minimal.kafka {
    producer = record { batch_size = pos 100; flush_interval = pos 0; compression = [] };
  };
  outputs = record minimal.outputs { influxdb = some thirty_days };
}

abbrev only_etc : Text → Bool
only_etc path = text_eq path (codes "/etc/dns-flow.yaml")

abbrev read_empty : Text → Option Text
read_empty path = some []

abbrev parse_no_interval : Text → Option Config
parse_no_interval text = some no_interval

abbrev ready_broker : Broker ℕ
ready_broker = record {
  metadata = λ n. some (record { name = codes "dns"; has_error = false } ∷ []);
  create = none;
  alter = none;
}

-- Every storage fails to be set up.
abbrev none_ready : Output → Bool
none_ready o = false
