-- ===== src/Main/Storages.antt =====
-- cmd/dns-flow/main.go: the writers that `initStorages` makes, and what `handleReload` reports.
--
-- Parameters: those of the loading of the configuration. A field that a literal does not name is
-- zero.
use dns_flow.Prelude.{
  Text, codes, text_eq, Bool, not, ◌&&◌, List, [], ◌∷◌, ◌++◌, Option, none, some, ◌⊎◌, inl, inr,
}
use dns_flow.Prelude.Int.{pos}
use dns_flow.Config.{
  Config, ClickHouseOutputConfig, InfluxdbV2OutputConfig, FileOutputConfig, ConfigError, validate,
}
use dns_flow.Logger.{to_lower}
use dns_flow.Clickhouse.Schema
use dns_flow.Influx.V1
use dns_flow.Influx.V2
use dns_flow.File
use dns_flow.Main.{influxdb_config}

unfoldable pub clickhouse_config : ClickHouseOutputConfig → Schema.Config
clickhouse_config o = record {
  hosts = o.hosts;
  database = o.database;
  username = o.username;
  password = o.password;
  compression = o.compression;
  pool_size = o.pool_size;
  ttl_days = pos 0;
}

unfoldable pub influxdb_v2_config : InfluxdbV2OutputConfig → V2.Config
influxdb_v2_config o = record {
  url = o.url;
  org = o.org;
  bucket = o.bucket;
  token = o.token;
  precision = o.precision;
  measurement = o.measurement;
  retention_days = pos 0;
}

unfoldable pub file_config : FileOutputConfig → File.Config
file_config o = record {
  path = o.path;
  max_size_mb = o.max_size_mb;
  max_age_days = o.max_age_days;
  max_backups = o.max_backups;
  compress = o.compress;
}

-- A storage with the configuration that it is made with.
pub data Output : Type 0 where
  clickhouse : Schema.Config → Output
  influxdb : V1.Config → Output
  influxdb_v2 : V2.Config → Output
  file : File.Config → Output

abbrev append_some : {A B : Type 0} → (A → B) → Option A → List B → List B
append_some f none l = l
append_some f (some a) l = f a ∷ l

-- The storages of `initStorages`, in their order.
unfoldable pub outputs : Config → List Output
outputs cfg =
    append_some (λ o. clickhouse (clickhouse_config o)) cfg.outputs.click_house
      (append_some (λ o. influxdb (influxdb_config o)) cfg.outputs.influxdb
        (append_some (λ o. influxdb_v2 (influxdb_v2_config o)) cfg.outputs.influxdb_v2
          (append_some (λ o. file (file_config o)) cfg.outputs.file [])))

-- `strings.Join`
unfoldable pub join : Text → List Text → Text
join sep [] = []
join sep (s ∷ []) = s
join sep (s ∷ t ∷ rest) = s ++ sep ++ join sep (t ∷ rest)

unfoldable pub summary_parts : Config → List Text
summary_parts cfg =
    append_some (λ o. codes "clickhouse") cfg.outputs.click_house
      (append_some (λ o. codes "influxdb_v1") cfg.outputs.influxdb
        (append_some (λ o. codes "influxdb_v2") cfg.outputs.influxdb_v2
          (append_some (λ o. codes "file") cfg.outputs.file [])))

unfoldable pub output_summary : Config → Text
unfolding join summary_parts
output_summary cfg =
    let parts = summary_parts cfg in
    elim parts [ [] ↦ codes "none" | p ∷ ps ↦ join (codes ",") (p ∷ ps) ]

-- What `handleReload` logs; `level_warning` says that it asks for a restart.
pub data Reload : Type 0 where
  unread : ConfigError → Reload
  invalid : ConfigError → Reload
  complete :
      (level_warning : Bool) → (listen : Text) → (brokers : List Text) → (summary : Text) → Reload

-- `strings.EqualFold` with a text of lower-case letters of ASCII.
abbrev pub equal_fold : Text → Text → Bool
equal_fold s t = text_eq (to_lower s) t

unfoldable pub level_warning : Text → Bool
level_warning level = not (text_eq level []) && not (equal_fold level (codes "info"))

unfoldable pub reload_valid : Config → Option ConfigError → Reload
reload_valid cfg (some e) = invalid e
reload_valid cfg none =
    complete (level_warning cfg.server.log_level) cfg.dnstap.listen cfg.kafka.brokers
      (output_summary cfg)

-- `loaded` is what `config.Load` returns.
unfoldable pub handle_reload : ConfigError ⊎ Config → Reload
unfolding reload_valid
handle_reload (inl e) = unread e
handle_reload (inr cfg) = reload_valid cfg (validate cfg)
