-- ===== src/Main/Retention.antt =====
-- cmd/dns-flow/main.go: the retention of the storages as `initStorages` sets them up.
use dns_flow.Prelude.{◌≡◌, Text, Bool, true, List, Option, none, inl, inr, All}
use dns_flow.Config.{ClickHouseOutputConfig, InfluxdbV2OutputConfig}
use dns_flow.Clickhouse.Schema
use dns_flow.Clickhouse.Schema.{Table, Server, remove_ttl}
use dns_flow.Clickhouse.Schema.Ttl.{passes, ttl_of, migrate-Ttl}
use dns_flow.Prelude.Int.{ℤ}
use dns_flow.Influx.V2
use dns_flow.Influx.V2.Retention.{Carries, migrate-Carries}
use dns_flow.Main.Storages.{clickhouse_config, influxdb_v2_config}

-- Whatever TTL the configuration of the ClickHouse output asks for, after `Migrate` of the writer
-- that `initStorages` makes of it a table has no TTL, whatever TTL it had, where the server lets
-- `Migrate` pass and the statement that removes this table's TTL succeeds.
pub migrate-clickhouse_config :
    (o : ClickHouseOutputConfig) (s : Server) (kept : Bool) (t : Table) (old : Option ℤ)
    → passes s ≡ true
    → s.executes (remove_ttl t) ≡ true
    → ttl_of kept t (Schema.migrate (clickhouse_config o) s).statements old ≡ none
unfolding clickhouse_config
migrate-clickhouse_config o s kept t old open_server removes =
    elim (migrate-Ttl (clickhouse_config o) s kept t old) [
      | inl (on, (e, started, inl (ok, h))) ↦ h
      | inl (on, (e, started, inr (failed, h))) ↦ cc
      | inr (off, rest) ↦ cc
    ]

-- Whatever retention the configuration of the InfluxDB v2 output asks for, `Migrate` of the writer
-- that `initStorages` makes of it returns nil, and each request that it sends has no body or carries
-- null for the retention rules.
pub migrate-influxdb_v2_config :
    (query_escape : Text → Text) (unmarshal : Text → Option (List Text)) (valid_url : Text → Bool)
    (respond : V2.Request → Option V2.Response) (o : InfluxdbV2OutputConfig)
    → let s = V2.migrate query_escape unmarshal valid_url respond (influxdb_v2_config o) in
      (s.error ≡ none)
      × All
          (Carries query_escape unmarshal valid_url respond (influxdb_v2_config o) none)
          s.requests
unfolding influxdb_v2_config V2.retention_rules_of
migrate-influxdb_v2_config query_escape unmarshal valid_url respond o =
    migrate-Carries query_escape unmarshal valid_url respond (influxdb_v2_config o)
