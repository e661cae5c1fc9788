-- ===== src/Config.antt =====
-- internal/infrastructure/config/config.go: the configuration, its loading and its validation.
--
-- Parameters: reading the file and `yaml.Unmarshal`. An `int` or a duration of the configuration
-- may be negative, and is an integer; a duration counts nanoseconds. A nil pointer is `none`.
pub mod Required
use dns_flow.Prelude.{
  Text, text_eq, Bool, true, false, ◌&&◌, List, [], ◌∷◌, Option, none, some, ◌⊎◌, inl, inr,
  if◌then◌else◌,
}
use dns_flow.Prelude.Int.{ℤ}

pub record ServerConfig : Type 0 where
  pub name : Text
  pub log_level : Text

pub record FramestreamConfig : Type 0 where
  pub buffer_size : ℤ
  pub timeout : ℤ

pub record TlsConfig : Type 0 where
  pub enabled : Bool
  pub cert_file : Text
  pub key_file : Text

pub record DnsTapConfig : Type 0 where
  pub listen : Text
  pub framestream : FramestreamConfig
  pub tls : TlsConfig

pub record KafkaTopic : Type 0 where
  pub raw : Text
  pub enriched : Text
  pub alert : Text
  pub metrics : Text
  pub retention_ms : Text

pub record KafkaProducer : Type 0 where
  pub batch_size : ℤ
  pub flush_interval : ℤ
  pub compression : Text

pub record KafkaConsumer : Type 0 where
  pub group_id : Text
  pub max_fetch_bytes : ℤ

pub record KafkaConfig : Type 0 where
  pub brokers : List Text
  pub topic : KafkaTopic
  pub producer : KafkaProducer
  pub consumer : KafkaConsumer

pub record ClickHouseOutputConfig : Type 0 where
  pub hosts : List Text
  pub database : Text
  pub username : Text
  pub password : Text
  pub compression : Bool
  pub pool_size : ℤ
  pub ttl_days : ℤ

pub record InfluxdbOutputConfig : Type 0 where
  pub url : Text
  pub database : Text
  pub username : Text
  pub password : Text
  pub retention_policy : Text
  pub retention_days : ℤ
  pub measurement : Text

pub record InfluxdbV2OutputConfig : Type 0 where
  pub url : Text
  pub org : Text
  pub bucket : Text
  pub token : Text
  pub precision : Text
  pub measurement : Text
  pub retention_days : ℤ

pub record FileOutputConfig : Type 0 where
  pub path : Text
  pub max_size_mb : ℤ
  pub max_age_days : ℤ
  pub max_backups : ℤ
  pub compress : Bool

pub record OutputsConfig : Type 0 where
  pub click_house : Option ClickHouseOutputConfig
  pub influxdb : Option InfluxdbOutputConfig
  pub influxdb_v2 : Option InfluxdbV2OutputConfig
  pub file : Option FileOutputConfig

pub record EnrichmentConfig : Type 0 where
  pub geoip_enabled : Bool
  pub asn_enabled : Bool
  pub threat_intel_enabled : Bool

pub record PipelineConfig : Type 0 where
  pub worker_count : ℤ
  pub queue_size : ℤ
  pub enrichment : EnrichmentConfig
  pub max_retries : ℤ
  pub retry_delay : ℤ

pub record GeoipConfig : Type 0 where
  pub maxmind_db_path : Text
  pub asn_db_path : Text

pub record MonitoringConfig : Type 0 where
  pub metrics_enabled : Bool
  pub tracing_enabled : Bool
  pub tracing_endpoint : Text
  pub pprof_enabled : Bool

pub record Config : Type 0 where
  pub server : ServerConfig
  pub dnstap : DnsTapConfig
  pub kafka : KafkaConfig
  pub outputs : OutputsConfig
  pub pipeline : PipelineConfig
  pub geoip : GeoipConfig
  pub monitoring : MonitoringConfig

pub data ConfigError : Type 0 where
  read_failed : (path : Text) → ConfigError
  parse_failed : ConfigError
  name_required listen_required brokers_required raw_topic_required : ConfigError
  output_required : ConfigError

unfoldable pub load : (Text → Option Text) → (Text → Option Config) → Text → ConfigError ⊎ Config
load read_file unmarshal path = elim (read_file path) [
  | none ↦ inl (read_failed path)
  | some text ↦ elim (unmarshal text) [ none ↦ inl parse_failed | some cfg ↦ inr cfg ]
]

abbrev pub is_none {ℓ} : {A : Type ℓ} → Option A → Bool
is_none none = true
is_none (some a) = false

abbrev pub is_empty {ℓ} : {A : Type ℓ} → List A → Bool
is_empty [] = true
is_empty (x ∷ xs) = false

unfoldable pub no_output : OutputsConfig → Bool
no_output o = is_none o.click_house && is_none o.influxdb && is_none o.influxdb_v2 && is_none o.file

-- `none` is the nil error.
unfoldable pub validate : Config → Option ConfigError
unfolding no_output
validate c =
    if text_eq c.server.name []
    then some name_required
    else if text_eq c.dnstap.listen []
    then some listen_required
    else if is_empty c.kafka.brokers
    then some brokers_required
    else if text_eq c.kafka.topic.raw []
    then some raw_topic_required
    else if no_output c.outputs
    then some output_required
    else none
