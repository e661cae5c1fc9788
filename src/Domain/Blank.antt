-- ===== src/Domain/Blank.antt =====
-- internal/adapter/inbound/dnstap/server.go: the zero value of `DNSRawEvent` that decoding starts
-- from.
use dns_flow.Prelude.{false, []}
use dns_flow.Prelude.Int.{pos}
use dns_flow.Domain.{duration_seconds, zero_time, DnsRawEvent, Flags}

abbrev pub no_flags : Flags
no_flags = record {
  qr = false;
  tc = false;
  aa = false;
  ra = false;
  ad = false;
  rd = false;
  cd = false;
}

abbrev pub blank_event : DnsRawEvent
blank_event = record {
  network = record {
    family = [];
    protocol = [];
    query_ip = [];
    query_port = 0;
    response_ip = [];
    response_port = 0;
  };
  dns = record {
    length = 0;
    id = 0;
    opcode = 0;
    rcode = [];
    qname = [];
    qtype = [];
    qclass = [];
    qdcount = 0;
    ancount = 0;
    nscount = 0;
    arcount = 0;
    malformed = false;
    flags = no_flags;
    resource = [];
  };
  edns = record {
    version = 0;
    udp_size = 0;
    rcode = 0;
    dnssec_ok = false;
    client_subnet = [];
    options = [];
  };
  dnstap = record {
    version = [];
    type = [];
    identity = [];
    operation = [];
    socket_ip = [];
    socket_port = 0;
    timestamp = zero_time;
    latency = duration_seconds (pos 0);
    latency_ms = pos 0;
    peer_name = [];
    query_zone = [];
    extra = [];
    policy_rule = [];
    policy_type = [];
    policy_match = [];
    policy_value = [];
    http_protocol = [];
  };
  geoip = record { client_ip = []; client_country = []; client_city = []; client_asn = [] };
}
