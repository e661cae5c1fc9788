-- ===== src/Dnstap/Decode.antt =====
-- internal/adapter/inbound/dnstap/server.go: `decodeToEvent`, `parseDNS` and what they call.
--
-- Parameters: the unpacking and the name tables of miekg/dns, the printing of an address by net.IP,
-- `net.SplitHostPort`, and `strconv.Atoi` on its result. An unknown number has an empty name.
use dns_flow.Prelude.{
  ℕ, Text, codes, text_eq, Bool, true, false, not, List, [], ◌∷◌, ◌++◌, Option, none, some, length,
  if◌then◌else◌,
}
use dns_flow.Prelude.Int.{ℤ}
use dns_flow.Prelude.Dict
use dns_flow.Prelude.Dict.{Dict}
use dns_flow.Domain.{DnsRawEvent, Dnsrr, DnsInfo, Flags, EdnsInfo, DnsTapInfo, NetworkInfo}
use dns_flow.Domain.Blank.{blank_event}
use dns_flow.Dnstap.Message.{
  Dnstap, TapMessage, SocketFamily, inet, inet6, SocketProtocol, udp, tcp, Rr, Question, Edns0, Opt,
  DnsMsg,
}
use dns_flow.Dnstap.Rdata.{rdata_to_string}
use dns_flow.Dnstap.Times.{set_times}
use dns_flow.Dnstap.Extra.{parse_extra}

-- The libraries that the decoder calls.
pub record Libraries : Type 0 where
  pub unpack : Text → Option DnsMsg
  pub rcode_to_string : ℕ → Text
  pub type_to_string : ℕ → Text
  pub class_to_string : ℕ → Text
  pub show_ip : Text → Text
  pub split_host_port : Text → Option (Text × Text)
  pub atoi : Text → Option ℕ

module _ (lib : Libraries) where
  unfoldable pub record_of : Rr → Dnsrr
  record_of rr = record {
    name = rr.name;
    rdata_type = lib.type_to_string rr.rrtype;
    class = lib.class_to_string rr.class;
    ttl = rr.ttl;
    rdata = rdata_to_string lib.type_to_string rr.rdata;
    geo = none;
  }

  -- `append(event.DNS.Resource[section], record)`: a missing section is an empty one.
  unfoldable pub append_record : Text → Dnsrr → Dict (List Dnsrr) → Dict (List Dnsrr)
  append_record section rr m = elim (Dict.lookup section m) [
    | none ↦ Dict.insert section (rr ∷ []) m
    | some rrs ↦ Dict.insert section (rrs ++ rr ∷ []) m
  ]

  unfoldable pub append_rr : Text → List Rr → Dict (List Dnsrr) → Dict (List Dnsrr)
  append_rr section [] m = m
  append_rr section (rr ∷ rrs) m = append_rr section rrs (append_record section (record_of rr) m)

  unfoldable pub resource_of : DnsMsg → Dict (List Dnsrr)
  unfolding append_rr
  resource_of d =
      append_rr (codes "ar") d.extra
        (append_rr (codes "ns") d.ns (append_rr (codes "an") d.answer []))

  unfoldable pub flags_of : DnsMsg → Flags
  flags_of d = record {
    qr = d.response;
    tc = d.truncated;
    aa = d.authoritative;
    ra = d.recursion_available;
    ad = d.authenticated_data;
    rd = d.recursion_desired;
    cd = d.checking_disabled;
  }

  -- With no question the three fields keep what they hold.
  unfoldable pub set_question : List Question → DnsInfo → DnsInfo
  set_question [] dns = dns
  set_question (q ∷ qs) dns = record dns {
    qname = q.name;
    qtype = lib.type_to_string q.qtype;
    qclass = lib.class_to_string q.qclass;
  }

  -- The loop over the EDNS options; the name of an option is left empty.
  unfoldable pub add_options : List Edns0 → EdnsInfo → EdnsInfo
  add_options [] edns = edns
  add_options (opt ∷ opts) edns =
      let options =
        edns.options ++ (record { code = opt.code; name = []; value = opt.text }) ∷ [] in
      add_options opts (record edns {
        options = options;
        client_subnet = elim opt.subnet [ none ↦ edns.client_subnet | some address ↦ address ];
      })

  unfoldable pub parse_edns : Option Opt → EdnsInfo → EdnsInfo
  parse_edns none edns = edns
  parse_edns (some o) edns = add_options o.options (record edns {
    version = o.version;
    udp_size = o.udp_size;
    rcode = o.extended_rcode;
    dnssec_ok = o.do_bit;
  })

  unfoldable pub set_dns : DnsMsg → ℕ → Bool → DnsInfo → DnsInfo
  set_dns d wire_length is_query dns = record (set_question d.question dns) {
    id = d.id;
    opcode = d.opcode;
    length = wire_length;
    qdcount = length d.question;
    ancount = length d.answer;
    nscount = length d.ns;
    arcount = length d.extra;
    flags = flags_of d;
    rcode = if not is_query then lib.rcode_to_string d.rcode else dns.rcode;
    resource = resource_of d;
  }

  unfoldable pub parse_dns : Text → Bool → DnsRawEvent → DnsRawEvent
  parse_dns wire is_query event = elim (lib.unpack wire) [
    | none ↦ record event { dns = record event.dns { malformed = true } }
    | some d ↦ record event {
      dns = set_dns d (length wire) is_query event.dns;
      edns = parse_edns d.edns0 event.edns;
    }
  ]

  unfoldable pub parse_message : Text → Bool → DnsRawEvent → DnsRawEvent
  parse_message [] is_query event = event
  parse_message (c ∷ wire) is_query event = parse_dns (c ∷ wire) is_query event

  unfoldable pub set_socket : Text → DnsTapInfo → DnsTapInfo
  set_socket remote t = elim (lib.split_host_port remote) [
    | none ↦ t
    | some (host, port) ↦ record t {
      socket_ip = host;
      socket_port = elim (lib.atoi port) [ none ↦ t.socket_port | some p ↦ p ];
    }
  ]

  unfoldable pub family_name : SocketFamily → Text
  family_name inet = codes "IPv4"
  family_name inet6 = codes "IPv6"
  family_name SocketFamily.other_family = codes "unknown"

  unfoldable pub protocol_name : SocketProtocol → Text
  protocol_name udp = codes "UDP"
  protocol_name tcp = codes "TCP"
  protocol_name SocketProtocol.other_protocol = codes "unknown"

  -- `if len(addr) > 0 { … = net.IP(addr).String() }`
  unfoldable pub address_text : Text → Text
  address_text [] = []
  address_text (c ∷ addr) = lib.show_ip (c ∷ addr)

  unfoldable pub network_of : TapMessage → NetworkInfo
  network_of m = record {
    family = family_name m.socket_family;
    protocol = protocol_name m.socket_protocol;
    query_ip = address_text m.query_address;
    query_port = m.query_port;
    response_ip = address_text m.response_address;
    response_port = m.response_port;
  }

  unfoldable pub tap_info : Dnstap → TapMessage → Text → ℤ → DnsTapInfo
  tap_info tap m remote now =
      let t = record blank_event.dnstap {
        identity = tap.identity;
        version = tap.version;
        extra = tap.extra;
        type = tap.type_name;
        operation = m.type_name;
      } in
      let t = record (set_socket remote t) { query_zone = m.query_zone } in
      let t = set_times now m t in if not (text_eq t.extra []) then parse_extra t.extra t else t

  unfoldable pub decode_message : Dnstap → TapMessage → Text → ℤ → DnsRawEvent
  decode_message tap m remote now =
      let event = record blank_event {
        dnstap = tap_info tap m remote now;
        network = network_of m;
      } in
      parse_message m.response_message false (parse_message m.query_message true event)

  -- A message of dnstap with no message inside gives no event.
  unfoldable pub decode_to_event : Dnstap → Text → ℤ → Option DnsRawEvent
  decode_to_event tap remote now = elim tap.message [
    | none ↦ none
    | some m ↦ some (decode_message tap m remote now)
  ]
