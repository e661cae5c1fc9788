-- ===== src/Tests.antt =====
-- Concrete runs of the models: a query and its response, and the parameters' sample values.
pub mod Correlation
pub mod Enrichment
pub mod Outputs
pub mod Kafka
pub mod Decoding
pub mod Wiring
pub mod Files
pub mod Storages
pub mod Passage
pub mod Connections
use dns_flow.Prelude.{
  Text, codes, text_eq, true, List, [], ◌∷◌, Option, none, some, ℕ, if◌then◌else◌,
}
use dns_flow.Prelude.{false}
use dns_flow.Prelude.Int.{pos}
use dns_flow.Config.{Config}
use dns_flow.Domain.{DnsRawEvent, Dnsrr}
use dns_flow.Domain.Blank.{blank_event}
use dns_flow.Domain.Ports.{Storage}

abbrev pub query_event : DnsRawEvent
query_event = record blank_event {
  network = record blank_event.network { query_ip = codes "10.0.0.7" };
  dns = record blank_event.dns { id = 4711; qname = codes "example.org."; qtype = codes "A" };
}

abbrev pub address_record : Dnsrr
address_record = record {
  name = codes "example.org.";
  rdata_type = codes "A";
  class = codes "IN";
  ttl = 300;
  rdata = codes "192.0.2.1";
  geo = none;
}

abbrev pub response_event : DnsRawEvent
response_event = record query_event {
  dns = record query_event.dns {
    flags = record query_event.dns.flags { qr = true };
    resource = (codes "an", address_record ∷ []) ∷ [];
  };
}

abbrev pub other_event : DnsRawEvent
other_event = record query_event { dns = record query_event.dns { id = 4712 } }

-- Only the two addresses of the events parse; they are numbered.
abbrev pub parse_sample : Text → Option ℕ
parse_sample s =
    if text_eq s (codes "10.0.0.7")
    then some 7
    else if text_eq s (codes "192.0.2.1")
    then some 1
    else none

-- A storage that keeps the names it is given.
abbrev pub name_storage : Storage (List Text) ℕ
name_storage = record {
  name = codes "names";
  write = λ event w. (event.dns.qname ∷ w, none);
  migrate = λ w. (w, none);
  close = λ w. (w, none);
}

-- A configuration with no output.
abbrev pub minimal : Config
minimal = record {
  server = record { name = codes "sensor"; log_level = [] };
  dnstap = record {
    listen = codes ":6000";
    framestream = record { buffer_size = pos 0; timeout = pos 0 };
    tls = record { enabled = false; cert_file = []; key_file = [] };
  };
  kafka = record {
    brokers = codes "broker:9092" ∷ [];
    topic = record {
      raw = codes "dns";
      enriched = [];
      alert = [];
      metrics = [];
      retention_ms = [];
    };
    producer = record { batch_size = pos 100; flush_interval = pos 1; compression = [] };
    consumer = record { group_id = []; max_fetch_bytes = pos 0 };
  };
  outputs = record { click_house = none; influxdb = none; influxdb_v2 = none; file = none };
  pipeline = record {
    worker_count = pos 4;
    queue_size = pos 100;
    enrichment = record {
      geoip_enabled = false;
      asn_enabled = false;
      threat_intel_enabled = false;
    };
    max_retries = pos 0;
    retry_delay = pos 0;
  };
  geoip = record { maxmind_db_path = []; asn_db_path = [] };
  monitoring = record {
    metrics_enabled = false;
    tracing_enabled = false;
    tracing_endpoint = [];
    pprof_enabled = false;
  };
}
