-- ===== src/Dnstap/Sections.antt =====
-- internal/adapter/inbound/dnstap/server.go: the sections of resource records in the event.
use dns_flow.Prelude.{
  Text, codes, text_eq, text_eq_iff, Bool, Bool-cases, List, [], ◌∷◌, ◌++◌, append_assoc,
  append-nil, map, length-map, none, some, ◌≡◌, refl, ◌∙◌, ap, sym, inl, inr, if◌then◌else◌, length,
  arith,
}
use dns_flow.Prelude.Dict
use dns_flow.Prelude.Dict.{Dict, lookup-insert}
use dns_flow.Domain.{DnsRawEvent, Dnsrr, DnsInfo}
use dns_flow.Dnstap.Message.{Rr, DnsMsg}
use dns_flow.Dnstap.Decode.{
  Libraries, record_of, append_record, append_rr, resource_of, set_dns, parse_dns,
}

-- What Go reads at a key of the map: a missing section is an empty one.
abbrev pub section_at : Text → Dict (List Dnsrr) → List Dnsrr
section_at section m = elim (Dict.lookup section m) [ none ↦ [] | some rrs ↦ rrs ]

module _ (lib : Libraries) where
  section-append_record :
      (section j : Text) (rr : Dnsrr) (m : Dict (List Dnsrr))
      → section_at j (append_record lib section rr m)
        ≡ (if text_eq section j then section_at j m ++ rr ∷ [] else section_at j m)
  unfolding append_record
  section-append_record section j rr m = ground (
    arith,
    text_eq_iff section j,
    lookup-insert section j (rr ∷ []) m,
    lookup-insert section j (section_at section m ++ rr ∷ []) m,
  )

  section-append_rr :
      (section j : Text) (rrs : List Rr) (m : Dict (List Dnsrr))
      → section_at j (append_rr lib section rrs m)
        ≡ (if text_eq section j then section_at j m ++ map (record_of lib) rrs else section_at j m)
  unfolding append_rr
  section-append_rr section j [] m = ground (arith, append-nil (section_at j m))
  section-append_rr section j (rr ∷ rrs) m =
      section-append_rr section j rrs (append_record lib section (record_of lib rr) m)
      ∙ elim (Bool-cases (text_eq section j)) [
        | inl same ↦
            rw (same, section-append_record section j (record_of lib rr) m, same, append_assoc) refl
        | inr other ↦ rw (other, section-append_record section j (record_of lib rr) m, other) refl
      ]

  -- What the library unpacked for each section, and nothing for any other name.
  abbrev pub section_of : Text → DnsMsg → List Rr
  section_of j d =
      if text_eq j (codes "an")
      then d.answer
      else if text_eq j (codes "ns")
      then d.ns
      else if text_eq j (codes "ar")
      then d.extra
      else []

  cases_of_section :
      (j : Text) (d : DnsMsg)
      → (if text_eq (codes "ar") j
          then (if text_eq (codes "ns") j
              then (if text_eq (codes "an") j then map (record_of lib) d.answer else [])
                ++ map (record_of lib) d.ns
              else if text_eq (codes "an") j
              then map (record_of lib) d.answer
              else [])
            ++ map (record_of lib) d.extra
          else if text_eq (codes "ns") j
          then (if text_eq (codes "an") j then map (record_of lib) d.answer else [])
            ++ map (record_of lib) d.ns
          else if text_eq (codes "an") j
          then map (record_of lib) d.answer
          else [])
        ≡ map (record_of lib) (section_of j d)
  cases_of_section j d = ground (
    arith,
    text_eq_iff j (codes "an"),
    text_eq_iff j (codes "ns"),
    text_eq_iff j (codes "ar"),
    text_eq_iff (codes "an") j,
    text_eq_iff (codes "ns") j,
    text_eq_iff (codes "ar") j,
  )

  resource_of-sections :
      (j : Text) (d : DnsMsg)
      → section_at j (resource_of lib d) ≡ map (record_of lib) (section_of j d)
  unfolding resource_of Dict.lookup
  resource_of-sections j d =
      let an = append_rr lib (codes "an") d.answer [] in
      let ns = append_rr lib (codes "ns") d.ns an in
      section-append_rr (codes "ar") j d.extra ns
      ∙ rw (section-append_rr (codes "ns") j d.ns an, section-append_rr (codes "an") j d.answer [])
          (cases_of_section j d)

  -- What an event shows of an unpacked message.
  abbrev pub Shows : Text → DnsMsg → DnsInfo → Type 0
  Shows j d dns =
      (section_at j dns.resource ≡ map (record_of lib) (section_of j d))
      × (dns.ancount ≡ length (section_at (codes "an") dns.resource))
      × (dns.nscount ≡ length (section_at (codes "ns") dns.resource))
      × (dns.arcount ≡ length (section_at (codes "ar") dns.resource))

  length-section :
      (j : Text) (d : DnsMsg) → length (section_of j d) ≡ length (section_at j (resource_of lib d))
  length-section j d =
      sym (ap length (resource_of-sections j d) ∙ length-map (record_of lib) (section_of j d))

  -- `parseDNS` of a message that the library unpacks: the event's section of each name holds the
  -- records of this section, translated one by one and in their order, and nothing under any other
  -- name, whatever sections the event held before; the three counts are the sections' lengths.
  pub parse_dns-Shows :
      (wire : Text) (is_query : Bool) (event : DnsRawEvent) (d : DnsMsg) (j : Text)
      → lib.unpack wire ≡ some d
      → Shows j d (parse_dns lib wire is_query event).dns
  unfolding parse_dns set_dns text_eq
  parse_dns-Shows wire is_query event d j h =
      rw (h, parse_dns)
        (
          resource_of-sections j d,
          length-section (codes "an") d,
          length-section (codes "ns") d,
          length-section (codes "ar") d,
        )
