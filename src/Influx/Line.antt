-- ===== src/Influx/Line.antt =====
-- internal/adapter/outbound/influxdb/writer.go: an event as a line of the line protocol. The same
-- functions stand in internal/adapter/outbound/influxdb_v2/writer.go, word for word.
--
-- Parameters: `%f` of the latency, as `show_seconds`, and `%q`, as `quote`.
pub mod Escape
pub mod Tags
pub mod Inject
use mathlib.Core.List.{flat_map}
use dns_flow.Prelude.{
  ℕ, Text, codes, text_eq, show, Bool, true, false, not, ◌||◌, List, [], ◌∷◌, ◌++◌, ◌==◌,
  if◌then◌else◌,
}
use dns_flow.Prelude.Int.{ℤ, wrap_i64, show_int, is_zero}
use dns_flow.Domain.{
  Float64, DnsRawEvent, NetworkInfo, DnsInfo, Flags, EdnsInfo, DnsTapInfo, GeoipInfo,
}

-- `strings.ReplaceAll` of a text of one byte.
unfoldable pub replace_all : Text → ℕ → Text → Text
replace_all s old new = flat_map (λ c. if c == old then new else c ∷ []) s

abbrev pub backslash : ℕ
backslash = b'\\'

unfoldable pub escape_tag : Text → Text
unfolding replace_all
escape_tag s =
    if text_eq s []
    then codes "unknown"
    else (let s = replace_all s b'\\' (backslash ∷ b'\\' ∷ []) in
        let s = replace_all s b' ' (backslash ∷ b' ' ∷ []) in
        let s = replace_all s b',' (backslash ∷ b',' ∷ []) in
        replace_all s b'=' (backslash ∷ b'=' ∷ []))

unfoldable pub bool_to_influx : Bool → Text
bool_to_influx true = codes "t"
bool_to_influx false = codes "f"

unfoldable pub measurement : Text → Text
measurement name = if not (text_eq name []) then name else codes "dns_query"

-- The tag section, behind the measurement and a comma.
unfoldable pub tags_of : DnsRawEvent → Text
tags_of event =
    codes "identity="
    ++ escape_tag event.dnstap.identity
    ++ codes ",operation="
    ++ escape_tag event.dnstap.operation
    ++ codes ",dnstap_version="
    ++ escape_tag event.dnstap.version
    ++ codes ",dnstap_type="
    ++ escape_tag event.dnstap.type
    ++ codes ",client_country="
    ++ escape_tag event.geoip.client_country
    ++ codes ",client_city="
    ++ escape_tag event.geoip.client_city
    ++ codes ",client_asn="
    ++ escape_tag event.geoip.client_asn

-- The timestamp in nanoseconds; the epoch itself is replaced by the current time.
unfoldable pub timestamp_of : ℤ → DnsRawEvent → ℤ
timestamp_of now event =
    if is_zero (wrap_i64 event.dnstap.timestamp)
    then wrap_i64 now
    else wrap_i64 event.dnstap.timestamp

-- One of the policy fields is not empty.
unfoldable pub has_policy : DnsTapInfo → Bool
has_policy t =
    not (text_eq t.policy_rule [])
    || not (text_eq t.policy_type [])
    || not (text_eq t.policy_match [])
    || not (text_eq t.policy_value [])
    || not (text_eq t.http_protocol [])
    || not (text_eq t.extra [])

module _ (show_seconds : Float64 → Text) (quote : Text → Text) where
  unfoldable pub escape_field : Text → Text
  escape_field s = if text_eq s [] then codes "\"\"" else quote s

  unfoldable pub network_fields : NetworkInfo → Text
  network_fields n =
      codes "query_ip="
      ++ escape_field n.query_ip
      ++ codes ",query_port="
      ++ show n.query_port
      ++ codes ",response_ip="
      ++ escape_field n.response_ip
      ++ codes ",response_port="
      ++ show n.response_port
      ++ codes ",family="
      ++ escape_field n.family
      ++ codes ",protocol="
      ++ escape_field n.protocol

  unfoldable pub flag_fields : Flags → Text
  flag_fields f =
      codes "qr="
      ++ bool_to_influx f.qr
      ++ codes ",tc="
      ++ bool_to_influx f.tc
      ++ codes ",aa="
      ++ bool_to_influx f.aa
      ++ codes ",rd="
      ++ bool_to_influx f.rd
      ++ codes ",ra="
      ++ bool_to_influx f.ra
      ++ codes ",ad="
      ++ bool_to_influx f.ad
      ++ codes ",cd="
      ++ bool_to_influx f.cd

  unfoldable pub count_fields : DnsInfo → Text
  count_fields d =
      codes "qdcount="
      ++ show d.qdcount
      ++ codes ",ancount="
      ++ show d.ancount
      ++ codes ",nscount="
      ++ show d.nscount
      ++ codes ",arcount="
      ++ show d.arcount
      ++ codes ",malformed="
      ++ bool_to_influx d.malformed

  unfoldable pub edns_fields : EdnsInfo → Text
  edns_fields e =
      codes "edns_version="
      ++ show e.version
      ++ codes ",edns_udp_size="
      ++ show e.udp_size
      ++ codes ",edns_rcode="
      ++ show e.rcode
      ++ codes ",edns_dnssec_ok="
      ++ bool_to_influx e.dnssec_ok
      ++ codes ",edns_client_subnet="
      ++ escape_field e.client_subnet

  unfoldable pub fields_of : DnsRawEvent → Text
  unfolding network_fields flag_fields count_fields edns_fields
  fields_of event =
      codes "qname="
      ++ escape_field event.dns.qname
      ++ codes ",qtype="
      ++ escape_field event.dns.qtype
      ++ codes ",qclass="
      ++ escape_field event.dns.qclass
      ++ codes ",rcode="
      ++ escape_field event.dns.rcode
      ++ codes ","
      ++ network_fields event.network
      ++ codes ",latency="
      ++ show_seconds event.dnstap.latency
      ++ codes ",latency_ms="
      ++ show_int event.dnstap.latency_ms
      ++ codes ",opcode="
      ++ show event.dns.opcode
      ++ codes ",length="
      ++ show event.dns.length
      ++ codes ",dns_id="
      ++ show event.dns.id
      ++ codes ","
      ++ flag_fields event.dns.flags
      ++ codes ","
      ++ count_fields event.dns
      ++ codes ","
      ++ edns_fields event.edns
      ++ codes ",socket_ip="
      ++ escape_field event.dnstap.socket_ip
      ++ codes ",socket_port="
      ++ show event.dnstap.socket_port
      ++ codes ",peer_name="
      ++ escape_field event.dnstap.peer_name
      ++ codes ",query_zone="
      ++ escape_field event.dnstap.query_zone
      ++ codes ",client_ip="
      ++ escape_field event.geoip.client_ip

  unfoldable pub policy_fields_of : DnsTapInfo → Text
  policy_fields_of t =
      if has_policy t
      then (codes ",policy_rule="
          ++ escape_field t.policy_rule
          ++ codes ",policy_type="
          ++ escape_field t.policy_type
          ++ codes ",policy_match="
          ++ escape_field t.policy_match
          ++ codes ",policy_value="
          ++ escape_field t.policy_value
          ++ codes ",http_protocol="
          ++ escape_field t.http_protocol
          ++ codes ",extra="
          ++ escape_field t.extra)
      else []

  unfoldable pub to_line_protocol : Text → ℤ → DnsRawEvent → Text
  to_line_protocol name now event =
      measurement name
      ++ b',' ∷ tags_of event
      ++ b' ' ∷ fields_of event
      ++ policy_fields_of event.dnstap
      ++ b' ' ∷ show_int (timestamp_of now event)
