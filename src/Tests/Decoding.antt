-- ===== src/Tests/Decoding.antt =====
-- The decoder of dnstap on one response message.
use dns_flow.Prelude.{
  ◌++◌, ◌+◌, ◌*◌, ◌≡◌, refl, arith, codes, true, false, Text, List, [], ◌∷◌, none, some, length,
  ◌==◌, if◌then◌else◌, show,
}
use dns_flow.Prelude.Int.{pos, ◌-ℤ◌}
use dns_flow.Domain.{duration_seconds}
use dns_flow.Domain.Blank.{blank_event}
use dns_flow.Dnstap.Message.{TapMessage, inet, udp, a, Rr, DnsMsg}
use dns_flow.Dnstap.Decode.{Libraries, parse_dns}
use dns_flow.Dnstap.Extra.{parse_extra, fields, fields_from, space_bytes, wide_space}
use dns_flow.Dnstap.Times.{nano, set_times}
use dns_flow.Dnstap.Latency.{Milliseconds, set_times-latency}
use dns_flow.Dnstap.Sections.{Shows, parse_dns-Shows}
use dns_flow.Dnstap.Policy.{render, Policies, parse_extra-Policies}

abbrev answer_rr : Rr
answer_rr = record {
  name = codes "example.org.";
  rrtype = 1;
  class = 1;
  ttl = 300;
  rdata = a (codes "192.0.2.1");
}

abbrev reply : DnsMsg
reply = record {
  id = 4711;
  opcode = 0;
  rcode = 0;
  response = true;
  truncated = false;
  authoritative = false;
  recursion_available = true;
  authenticated_data = false;
  recursion_desired = true;
  checking_disabled = false;
  question = [];
  answer = answer_rr ∷ [];
  ns = [];
  extra = answer_rr ∷ answer_rr ∷ [];
  edns0 = none;
}

-- Libraries that unpack one message and print numbers in decimal.
abbrev libraries : Libraries
libraries = record {
  unpack = λ wire. if length wire == 3 then some reply else none;
  rcode_to_string = show;
  type_to_string = show;
  class_to_string = show;
  show_ip = λ ip. ip;
  split_host_port = λ s. none;
  atoi = λ s. none;
}

abbrev wire : Text
wire = 1 ∷ 2 ∷ 3 ∷ []

parse_dns-Shows_example :
    Shows libraries (codes "ar") reply (parse_dns libraries wire false blank_event).dns
parse_dns-Shows_example = parse_dns-Shows libraries wire false blank_event reply (codes "ar") refl

abbrev rules : List (Text × Text)
rules = (codes "policy-rule", codes "a=b") ∷ (codes "policy-rule", codes "drop") ∷ []

parse_extra-Policies_example :
    Policies rules blank_event.dnstap (parse_extra (render rules) blank_event.dnstap)
parse_extra-Policies_example = parse_extra-Policies rules blank_event.dnstap (ground arith)

-- A response that arrived two seconds and a half after its query.
abbrev timed : TapMessage
timed = record {
  type_name = codes "CLIENT_RESPONSE";
  query_zone = [];
  query_time_sec = 100;
  query_time_nsec = 0;
  response_time_sec = 102;
  response_time_nsec = 500000000;
  socket_family = inet;
  socket_protocol = udp;
  query_address = [];
  query_port = 53;
  response_address = [];
  response_port = 53;
  query_message = [];
  response_message = wire;
}

set_times-latency_example :
    ((set_times (pos 0) timed blank_event.dnstap).timestamp ≡ pos (102 * nano + 500000000))
    × ((set_times (pos 0) timed blank_event.dnstap).latency
        ≡ duration_seconds (pos (102 * nano + 500000000) -ℤ pos (100 * nano + 0)))
    × Milliseconds
        (pos (102 * nano + 500000000) -ℤ pos (100 * nano + 0))
        (set_times (pos 0) timed blank_event.dnstap).latency_ms
set_times-latency_example =
    set_times-latency (pos 0) timed blank_event.dnstap (omega arith) (omega arith) (omega arith)
      (omega arith) (omega arith) (omega arith)

-- A no-break space and an em space split fields, another character of three bytes does not.
fields_wide :
    fields (
      codes "a=1"
      ++ 194 ∷ 160 ∷ codes "b=2"
      ++ 226 ∷ 128 ∷ 131 ∷ codes "c="
      ++ 226 ∷ 130 ∷ 172 ∷ [])
    ≡ codes "a=1" ∷ codes "b=2" ∷ (codes "c=" ++ 226 ∷ 130 ∷ 172 ∷ []) ∷ []
unfolding fields fields_from space_bytes wide_space
fields_wide = refl
