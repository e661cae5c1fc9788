-- ===== src/Dnstap/Message.antt =====
-- The data that internal/adapter/inbound/dnstap/server.go reads: the message of golang-dnstap and
-- the DNS message of miekg/dns. Only what the code reads of them is here. The numbers of types,
-- classes and codes are kept; a resource record's data are told apart as `rdataToString` does.
use dns_flow.Prelude.{ℕ, Text, Bool, List, Option}

pub data SocketFamily : Type 0 where
  inet inet6 other_family : SocketFamily

pub data SocketProtocol : Type 0 where
  udp tcp other_protocol : SocketProtocol

-- The getters of dnstap.Message. A `Type` is given by its name.
pub record TapMessage : Type 0 where
  pub type_name : Text
  pub query_zone : Text
  pub query_time_sec : ℕ
  pub query_time_nsec : ℕ
  pub response_time_sec : ℕ
  pub response_time_nsec : ℕ
  pub socket_family : SocketFamily
  pub socket_protocol : SocketProtocol
  pub query_address : Text
  pub query_port : ℕ
  pub response_address : Text
  pub response_port : ℕ
  pub query_message : Text
  pub response_message : Text

pub record Dnstap : Type 0 where
  pub message : Option TapMessage
  pub identity : Text
  pub version : Text
  pub extra : Text
  pub type_name : Text

-- A parameter of an SVCB record: whether its key is SVCB_NO_DEFAULT_ALPN, the key's name, the value.
pub record SvcbPair : Type 0 where
  pub no_default_alpn : Bool
  pub key_name : Text
  pub value : Text

pub record SvcbData : Type 0 where
  pub priority : ℕ
  pub target : Text
  pub pairs : List SvcbPair

pub data RData : Type 0 where
  a aaaa : (address : Text) → RData
  cname : (target : Text) → RData
  mx : (preference : ℕ) (exchange : Text) → RData
  ns : (host : Text) → RData
  ptr : (host : Text) → RData
  soa : (host mbox : Text) (serial refresh retry expire minttl : ℕ) → RData
  txt : (strings : List Text) → RData
  srv : (priority weight port : ℕ) (target : Text) → RData
  ds : (key_tag algorithm digest_type : ℕ) (digest : Text) → RData
  dnskey : (flags protocol algorithm : ℕ) (public_key : Text) → RData
  rrsig :
      (type_covered algorithm labels orig_ttl expiration inception key_tag : ℕ)
      (signer_name signature : Text)
      → RData
  nsec : (next_domain : Text) (types : List ℕ) → RData
  nsec3 : (hash flags iterations : ℕ) (salt next_domain : Text) (types : List ℕ) → RData
  caa : (flag : ℕ) (tag value : Text) → RData
  loc : (version size horiz_pre vert_pre latitude longitude altitude : ℕ) → RData
  sshfp : (algorithm type : ℕ) (finger_print : Text) → RData
  tlsa : (usage selector matching_type : ℕ) (certificate : Text) → RData
  https svcb : SvcbData → RData
  fallback : (printed : Text) → RData

pub record Rr : Type 0 where
  pub name : Text
  pub rrtype : ℕ
  pub class : ℕ
  pub ttl : ℕ
  pub rdata : RData

pub record Question : Type 0 where
  pub name : Text
  pub qtype : ℕ
  pub qclass : ℕ

-- An EDNS option: its code and text, and the address of a client subnet option.
pub record Edns0 : Type 0 where
  pub code : ℕ
  pub text : Text
  pub subnet : Option Text

pub record Opt : Type 0 where
  pub version : ℕ
  pub udp_size : ℕ
  pub extended_rcode : ℕ
  pub do_bit : Bool
  pub options : List Edns0

pub record DnsMsg : Type 0 where
  pub id : ℕ
  pub opcode : ℕ
  pub rcode : ℕ
  pub response : Bool
  pub truncated : Bool
  pub authoritative : Bool
  pub recursion_available : Bool
  pub authenticated_data : Bool
  pub recursion_desired : Bool
  pub checking_disabled : Bool
  pub question : List Question
  pub answer : List Rr
  pub ns : List Rr
  pub extra : List Rr
  pub edns0 : Option Opt
