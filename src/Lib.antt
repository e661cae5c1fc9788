-- ===== src/Lib.antt =====
-- Verification library of dns-flow, a collector of dnstap messages that enriches DNS events and
-- writes them to Kafka and, behind a Kafka consumer, to ClickHouse, InfluxDB or a file.
--
-- The parts of the program. The dnstap server decodes a message to an event and hands it to the
-- pipeline's queue. A worker of the pipeline correlates responses with queries, enriches the event
-- with GeoIP data, and writes it to the storages, among them the Kafka producer, which batches the
-- events and retries its writes. A consumer reads the topic back and writes to the other storages.
--
-- The files, with the code that they model:
--   Domain, Domain/Blank, Domain/Ports: internal/domain (the event, the ports of the adapters)
--   Dnstap/*: internal/adapter/inbound/dnstap/server.go (decodeToEvent as decode_to_event, parseDNS
--     as parse_dns, rdataToString as rdata_to_string, parseEDNS as parse_edns, parseExtra as
--     parse_extra); Dnstap/Server: Start, Stop, acceptLoop, handleConn
--   Correlator/*: internal/usecase/correlator.go (Store, Lookup, evict); Correlator/Spec is the
--     contract, Correlator/Answer what the pipeline relies on, Correlator/Ticks the loop of the ticker
--   Pipeline: internal/usecase/pipeline.go, processEvent; Pipeline/Workers: Process, Run, worker and
--     Shutdown as a step relation; Pipeline/Health: Health and the end of Shutdown
--   Geoip: internal/adapter/outbound/geoip/maxmind.go (Lookup, LookupIP, NewMaxMindResolver);
--     Geoip/Close: Health, Close
--   Kafka/Producer, Kafka/Topic, Kafka/Errors: internal/adapter/outbound/kafka/producer.go (Write,
--     startFlusher and flushBatch; Migrate; isRetriable and truncateError)
--   Kafka/Consumer, Kafka/Consumer/Start: internal/adapter/inbound/kafka/consumer.go (loop;
--     waitForTopic, Start, Stop)
--   Config: internal/infrastructure/config/config.go (Load, Validate)
--   Logger: internal/infrastructure/logger/logger.go (Init, parseLevel)
--   Influx/Line: internal/adapter/outbound/influxdb/writer.go (toLineProtocol, escapeTag)
--   Influx/V1: internal/adapter/outbound/influxdb/writer.go (Migrate, applyRetentionPolicy, Write),
--     as the requests that are sent
--   Influx/V2: internal/adapter/outbound/influxdb_v2/writer.go (Migrate, applyBucketRetention, Write,
--     as the requests that are sent; toLineProtocol, whose text is that of the other writer)
--   File: internal/adapter/outbound/file/writer.go (Migrate, Write, rotate, gzipFile, Close);
--     File/Cleanup: cleanup; File/Sweep: the cleanups that rotate starts; File/Paths, File/Backups and File/History: what a rotation keeps
--   Clickhouse/Rows, Clickhouse/Batch: internal/adapter/outbound/clickhouse/writer.go (flushBatch);
--     Clickhouse/Schema: Migrate; Clickhouse/Queue: Write, startFlusher, Close
--   Main: cmd/dns-flow/main.go (resolveConfig, initGeoIP, and configurations that it makes);
--     Main/Storages: initStorages, handleReload, outputSummary; Main/Startup: main
--   Flow: the producer, the consumer and the ClickHouse writer one behind the other
--   Prelude: texts as bytes, maps as association lists, signed integers, panics; Tests: runs at
--     concrete inputs
--
-- State. A method of the code is a function from the old state to the new one; its log lines are
-- values where a property needs them. A call that may panic returns an Outcome. What several
-- goroutines do is a step relation, one step for each choice of a select or each call, so that its
-- reachable states are those of every interleaving. Go maps are iterated in the order of a list.
--
-- Parameters. What is not in the repository is an argument: net.ParseIP, the MaxMind readers,
-- encoding/json, the answers of kafka-go, of the ClickHouse driver and of the InfluxDB servers, what
-- the calls of the network and of the operating system return, the unpacking and the name
-- tables of miekg/dns, the clock, and the formats %f and %q.
--
-- Bounds. The polling of a topic makes ten rounds and the retried write three attempts, as in the
-- code; both are recursion on these counts. The other loops are recursion on the list that they
-- walk. Printing a number is recursion on fuel, of which the number itself is enough. A count, a
-- port or a header field is a natural number; durations and times are integers that wrap at 64 bits
-- or saturate where the code's do.
--
-- Not modelled: what the parameters stand for; the printing of log lines; the reading of ENV, but for
-- its value; the HTTP headers that no property needs; a second call of Close on the other writers,
-- which panics; the timeouts of the clients, which show in the answers that are parameters; float64,
-- of which the latency keeps the duration that it is made of; and a shortage of memory. A clean-up
-- of the backups runs between two writes, not inside one.
pub mod Prelude
pub mod Domain
pub mod Correlator
pub mod Geoip
pub mod Pipeline
pub mod Kafka
pub mod Config
pub mod Influx
pub mod Clickhouse
pub mod Dnstap
pub mod File
pub mod Logger
pub mod Main
pub mod Flow
pub mod Tests
