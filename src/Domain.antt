-- ===== src/Domain.antt =====
-- internal/domain: the event that travels from the decoder to the storages, and the ports' errors.
--
-- A Go string is its bytes. An `int` that only ever holds a count, a port or a header field is a
-- natural number; `LatencyMs` may be negative and is an integer. `Latency` is a float64 computed
-- as Duration.Seconds(): the model keeps the duration's nanoseconds. A time.Time is its distance
-- from the Unix epoch in nanoseconds; the zero value of the type, in the year 1, is `zero_time`.
pub mod Blank
pub mod Ports
use dns_flow.Prelude.{ℕ, ◌*◌, ◌-◌, Text, Bool, List, Option}
use dns_flow.Prelude.Int.{ℤ, negsuc}
use dns_flow.Prelude.Dict.{Dict}

abbrev pub zero_time : ℤ
zero_time = negsuc (62135596800 * 1000000000 - 1)

pub record NetworkInfo : Type 0 where
  pub family : Text
  pub protocol : Text
  pub query_ip : Text
  pub query_port : ℕ
  pub response_ip : Text
  pub response_port : ℕ

pub record Flags : Type 0 where
  pub qr : Bool
  pub tc : Bool
  pub aa : Bool
  pub ra : Bool
  pub ad : Bool
  pub rd : Bool
  pub cd : Bool

pub record RrGeoInfo : Type 0 where
  pub country : Text
  pub city : Text
  pub asn : Text

pub record Dnsrr : Type 0 where
  pub name : Text
  pub rdata_type : Text
  pub class : Text
  pub ttl : ℕ
  pub rdata : Text
  pub geo : Option RrGeoInfo

pub record DnsInfo : Type 0 where
  pub length : ℕ
  pub id : ℕ
  pub opcode : ℕ
  pub rcode : Text
  pub qname : Text
  pub qtype : Text
  pub qclass : Text
  pub qdcount : ℕ
  pub ancount : ℕ
  pub nscount : ℕ
  pub arcount : ℕ
  pub malformed : Bool
  pub flags : Flags
  pub resource : Dict (List Dnsrr)

-- A float64 that the code only passes on: what `Duration.Seconds` returns for these nanoseconds.
pub data Float64 : Type 0 where
  duration_seconds : (nanoseconds : ℤ) → Float64

pub record DnsTapInfo : Type 0 where
  pub version : Text
  pub type : Text
  pub identity : Text
  pub operation : Text
  pub socket_ip : Text
  pub socket_port : ℕ
  pub timestamp : ℤ
  pub latency : Float64
  pub latency_ms : ℤ
  pub peer_name : Text
  pub query_zone : Text
  pub extra : Text
  pub policy_rule : Text
  pub policy_type : Text
  pub policy_match : Text
  pub policy_value : Text
  pub http_protocol : Text

pub record EdnsOption : Type 0 where
  pub code : ℕ
  pub name : Text
  pub value : Text

pub record EdnsInfo : Type 0 where
  pub version : ℕ
  pub udp_size : ℕ
  pub rcode : ℕ
  pub dnssec_ok : Bool
  pub client_subnet : Text
  pub options : List EdnsOption

pub record GeoipInfo : Type 0 where
  pub client_ip : Text
  pub client_country : Text
  pub client_city : Text
  pub client_asn : Text

pub record DnsRawEvent : Type 0 where
  pub network : NetworkInfo
  pub dns : DnsInfo
  pub edns : EdnsInfo
  pub dnstap : DnsTapInfo
  pub geoip : GeoipInfo

pub record ThreatInfo : Type 0 where
  pub malicious : Bool
  pub category : Text
  pub sources : List Text

pub record PolicyInfo : Type 0 where
  pub action : Text
  pub policy_name : Text
  pub category : Text

-- No operation makes one.
pub record EnrichedEvent : Type 0 where
  pub event : DnsRawEvent
  pub geoip : GeoipInfo
  pub threat : ThreatInfo
  pub policy : PolicyInfo
