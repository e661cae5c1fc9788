-- ===== src/Main.antt =====
-- cmd/dns-flow/main.go: the configurations of the adapters and the GeoIP resolver.
--
-- Parameters: `os.Stat`, as `exists`, and those of the GeoIP resolver.
pub mod Wiring
pub mod Storages
pub mod Retention
pub mod Reload
pub mod Startup
use dns_flow.Prelude.{
  Text, codes, Bool, true, false, not, List, [], ◌∷◌, Option, none, some, ◌⊎◌, inl, inr,
  if◌then◌else◌,
}
use dns_flow.Prelude.Int.{pos}
use dns_flow.Domain.Ports.{GeoipResolver}
use dns_flow.Config.{Config, InfluxdbOutputConfig}
use dns_flow.Geoip.{MaxMindResolver, GeoError, CityDb, AsnDb, new_max_mind_resolver, as_resolver}
use dns_flow.Influx.V1
use dns_flow.Kafka.Producer
use dns_flow.Kafka.Consumer.Start

abbrev pub candidates : List Text
candidates =
    codes "./config.yaml"
    ∷ codes "./configs/config.yaml"
    ∷ codes "/usr/local/etc/dns-flow.yaml"
    ∷ codes "/etc/dns-flow.yaml"
    ∷ []

unfoldable pub first_existing : (Text → Bool) → List Text → Option Text
first_existing exists [] = none
first_existing exists (path ∷ paths) =
    if exists path then some path else first_existing exists paths

unfoldable pub resolve_config : (Text → Bool) → Text → Option Text
unfolding first_existing
resolve_config exists [] = first_existing exists candidates
resolve_config exists (c ∷ path) = some (c ∷ path)

-- The pointer that `NewMaxMindResolver` returns next to its error.
unfoldable pub resolver_pointer :
    {Ip : Type 0} → GeoError ⊎ MaxMindResolver Ip → Option (MaxMindResolver Ip)
resolver_pointer (inl e) = none
resolver_pointer (inr m) = some m

module _ {Ip : Type 0} (parse_ip : Text → Option Ip) (open_city : Text → Option (CityDb Ip))
    (open_asn : Text → Option (AsnDb Ip)) where
  -- The outer `none` is the nil interface; the pointer inside the interface may be nil as well.
  unfoldable pub init_geoip : Config → Option (GeoipResolver GeoError)
  init_geoip cfg =
      if not cfg.pipeline.enrichment.geoip_enabled
      then none
      else some (
          as_resolver parse_ip (
            resolver_pointer (
              new_max_mind_resolver open_city open_asn cfg.geoip.maxmind_db_path
                cfg.geoip.asn_db_path)))

-- The configuration that `initStorages` makes for the InfluxDB writer: a field that the literal does
-- not name is zero.
unfoldable pub influxdb_config : InfluxdbOutputConfig → V1.Config
influxdb_config o = record {
  url = o.url;
  database = o.database;
  username = o.username;
  password = o.password;
  retention_policy = o.retention_policy;
  retention_days = pos 0;
  measurement = o.measurement;
}

unfoldable pub producer_config : Config → Producer.Config
producer_config cfg = record {
  brokers = cfg.kafka.brokers;
  topic = cfg.kafka.topic.raw;
  batch_size = cfg.kafka.producer.batch_size;
  flush_interval = cfg.kafka.producer.flush_interval;
  compression = cfg.kafka.producer.compression;
  retention_ms = [];
}

-- The configuration that `main` makes for the consumer.
unfoldable pub consumer_config : Config → Start.Config
consumer_config cfg = record {
  brokers = cfg.kafka.brokers;
  topic = cfg.kafka.topic.raw;
  group_id = cfg.kafka.consumer.group_id;
}
