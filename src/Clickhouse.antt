-- ===== src/Clickhouse.antt =====
-- internal/adapter/outbound/clickhouse/writer.go: the tables, the queue and the rows of a batch.
pub mod Rows
pub mod Batch
pub mod Outcomes
pub mod Schema
pub mod Queue
