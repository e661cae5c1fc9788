-- ===== src/Clickhouse/Rows.antt =====
-- internal/adapter/outbound/clickhouse/writer.go: the rows that `flushBatch` appends for an event.
--
-- Parameter: `json.Marshal` of the EDNS options. The rows of the answers are listed in the order in
-- which the map of sections is iterated.
use dns_flow.Prelude.{
  ℕ, ◌%◌, ◌^◌, Text, codes, Bool, true, false, List, [], ◌∷◌, Option, none, some, if◌then◌else◌,
}
use dns_flow.Prelude.Int.{ℤ, ◌-ℤ◌, is_zero}
use dns_flow.Domain.{Float64, DnsRawEvent, Dnsrr, RrGeoInfo, EdnsOption, zero_time}

unfoldable pub bool_to_uint8 : Bool → ℕ
bool_to_uint8 true = 1
bool_to_uint8 false = 0

-- An argument of `Append`; `duration` is that of the latency.
pub data Value : Type 0 where
  text : Text → Value
  number : ℕ → Value
  signed : ℤ → Value
  duration : Float64 → Value
  time : ℤ → Value

abbrev pub flag : Bool → Value
flag b = number (bool_to_uint8 b)

abbrev pub uint8 : ℕ → Value
uint8 n = number (n % 2 ^ 8)

abbrev pub uint16 : ℕ → Value
uint16 n = number (n % 2 ^ 16)

-- The columns that the two INSERT statements name, in their order.
abbrev pub raw_columns : List Text
raw_columns =
    codes "timestamp"
    ∷ codes "query_ip"
    ∷ codes "query_port"
    ∷ codes "response_ip"
    ∷ codes "response_port"
    ∷ codes "family"
    ∷ codes "protocol"
    ∷ codes "qname"
    ∷ codes "qtype"
    ∷ codes "qclass"
    ∷ codes "rcode"
    ∷ codes "opcode"
    ∷ codes "length"
    ∷ codes "dns_id"
    ∷ codes "qr"
    ∷ codes "tc"
    ∷ codes "aa"
    ∷ codes "ra"
    ∷ codes "ad"
    ∷ codes "rd"
    ∷ codes "cd"
    ∷ codes "qdcount"
    ∷ codes "ancount"
    ∷ codes "nscount"
    ∷ codes "arcount"
    ∷ codes "malformed"
    ∷ codes "edns_version"
    ∷ codes "edns_udp_size"
    ∷ codes "edns_rcode"
    ∷ codes "edns_dnssec_ok"
    ∷ codes "edns_client_subnet"
    ∷ codes "client_country"
    ∷ codes "client_city"
    ∷ codes "client_asn"
    ∷ codes "latency"
    ∷ codes "latency_ms"
    ∷ codes "dnstap_identity"
    ∷ codes "dnstap_version"
    ∷ codes "dnstap_type"
    ∷ codes "dnstap_operation"
    ∷ codes "socket_ip"
    ∷ codes "socket_port"
    ∷ codes "policy_rule"
    ∷ codes "policy_type"
    ∷ codes "policy_match"
    ∷ codes "policy_value"
    ∷ codes "http_protocol"
    ∷ codes "peer_name"
    ∷ codes "query_zone"
    ∷ codes "extra"
    ∷ codes "edns_options"
    ∷ []

abbrev pub answer_columns : List Text
answer_columns =
    codes "timestamp"
    ∷ codes "query_ip"
    ∷ codes "qname"
    ∷ codes "answer_name"
    ∷ codes "rdatatype"
    ∷ codes "rdata"
    ∷ codes "ttl"
    ∷ codes "section"
    ∷ codes "answer_country"
    ∷ codes "answer_city"
    ∷ codes "answer_asn"
    ∷ []

-- `ts`: an event without a time, whose time is the zero value of the type, gets the current one.
unfoldable pub time_of : ℤ → DnsRawEvent → ℤ
time_of now event =
    if is_zero (event.dnstap.timestamp -ℤ zero_time) then now else event.dnstap.timestamp

unfoldable pub edns_options_json : (List EdnsOption → Option Text) → List EdnsOption → Text
edns_options_json marshal [] = []
edns_options_json marshal (opt ∷ opts) = elim (marshal (opt ∷ opts)) [ none ↦ [] | some b ↦ b ]

unfoldable pub answer_row : ℤ → DnsRawEvent → Text → Dnsrr → List Value
answer_row ts event section rr =
    let geo : RrGeoInfo = elim rr.geo [
      | none ↦ record { country = []; city = []; asn = [] }
      | some g ↦ g
    ] in
    time ts
    ∷ text event.network.query_ip
    ∷ text event.dns.qname
    ∷ text rr.name
    ∷ text rr.rdata_type
    ∷ text rr.rdata
    ∷ number (rr.ttl % 2 ^ 32)
    ∷ text section
    ∷ text geo.country
    ∷ text geo.city
    ∷ text geo.asn
    ∷ []

unfoldable pub raw_row : (List EdnsOption → Option Text) → ℤ → DnsRawEvent → List Value
raw_row marshal ts event =
    time ts
    ∷ text event.network.query_ip
    ∷ uint16 event.network.query_port
    ∷ text event.network.response_ip
    ∷ uint16 event.network.response_port
    ∷ text event.network.family
    ∷ text event.network.protocol
    ∷ text event.dns.qname
    ∷ text event.dns.qtype
    ∷ text event.dns.qclass
    ∷ text event.dns.rcode
    ∷ uint8 event.dns.opcode
    ∷ uint16 event.dns.length
    ∷ uint16 event.dns.id
    ∷ flag event.dns.flags.qr
    ∷ flag event.dns.flags.tc
    ∷ flag event.dns.flags.aa
    ∷ flag event.dns.flags.ra
    ∷ flag event.dns.flags.ad
    ∷ flag event.dns.flags.rd
    ∷ flag event.dns.flags.cd
    ∷ uint16 event.dns.qdcount
    ∷ uint16 event.dns.ancount
    ∷ uint16 event.dns.nscount
    ∷ uint16 event.dns.arcount
    ∷ flag event.dns.malformed
    ∷ uint8 event.edns.version
    ∷ uint16 event.edns.udp_size
    ∷ uint8 event.edns.rcode
    ∷ flag event.edns.dnssec_ok
    ∷ text event.edns.client_subnet
    ∷ text event.geoip.client_country
    ∷ text event.geoip.client_city
    ∷ text event.geoip.client_asn
    ∷ duration event.dnstap.latency
    ∷ signed event.dnstap.latency_ms
    ∷ text event.dnstap.identity
    ∷ text event.dnstap.version
    ∷ text event.dnstap.type
    ∷ text event.dnstap.operation
    ∷ text event.dnstap.socket_ip
    ∷ uint16 event.dnstap.socket_port
    ∷ text event.dnstap.policy_rule
    ∷ text event.dnstap.policy_type
    ∷ text event.dnstap.policy_match
    ∷ text event.dnstap.policy_value
    ∷ text event.dnstap.http_protocol
    ∷ text event.dnstap.peer_name
    ∷ text event.dnstap.query_zone
    ∷ text event.dnstap.extra
    ∷ text (edns_options_json marshal event.edns.options)
    ∷ []
