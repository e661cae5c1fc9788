-- ===== src/Influx.antt =====
-- The two InfluxDB writers: internal/adapter/outbound/influxdb/writer.go and
-- internal/adapter/outbound/influxdb_v2/writer.go. Both print an event as the same line.
pub mod Line
pub mod V1
pub mod V2
