-- ===== src/Pipeline/Enrich.antt =====
-- internal/usecase/pipeline.go: the enrichment of `processEvent`.
use dns_flow.Prelude.{
  Text, codes, text_eq_iff, Bool-cases, true, false, List, [], ◌∷◌, Option, Option-cases, some, ◌⊎◌,
  inl, inr, ◌≡◌, ◌≢◌, refl, arith,
}
use dns_flow.Prelude.Outcome.{Outcome, returned, traverse}
use dns_flow.Domain.{DnsRawEvent, Dnsrr, RrGeoInfo, GeoipInfo}
use dns_flow.Domain.Ports.{GeoipResolver}
use dns_flow.Pipeline.{
  is_address, with_geo, with_info, enrich_rr, enrich_section, enrich_client, enrich,
}

-- Two lists of one length, related place by place.
abbrev pub All₂ {ℓ} : {A : Type ℓ} → (A → A → Type 0) → List A → List A → Type 0
All₂ R [] [] = Unit
All₂ R [] (y ∷ ys) = ⊥
All₂ R (x ∷ xs) [] = ⊥
All₂ R (x ∷ xs) (y ∷ ys) = R x y × All₂ R xs ys

traverse-All₂ :
    {A : Type 0} (R : A → A → Type 0) (f : A → Outcome A)
    → ((x : A) → (y : A) × (f x ≡ returned y) × R x y)
    → (xs : List A) → (ys : List A) × (traverse f xs ≡ returned ys) × All₂ R xs ys
unfolding traverse
traverse-All₂ R f h [] = ([], refl, tt)
traverse-All₂ R f h (x ∷ xs) =
    let one = h x in
    let ih = traverse-All₂ R f h xs in (one.0 ∷ ih.0, rw (one.1, ih.1), (one.2, ih.2))

module _ {Ip G : Type 0} (parse_ip : Text → Option Ip) (geoip : GeoipResolver G)
    (find : Text → Text × Text × Text)
    (found : (ip : Text) → geoip.lookup_ip ip ≡ returned (find ip)) where
  -- The record is an address that parses, and something is known of it.
  abbrev pub IsKnown : Dnsrr → Type 0
  IsKnown rr =
      ((rr.rdata_type ≡ codes "A") ⊎ (rr.rdata_type ≡ codes "AAAA"))
      × ((ip : Ip) × (parse_ip rr.rdata ≡ some ip))
      × (((find rr.rdata).0 ≢ []) ⊎ ((find rr.rdata).1 ≢ []) ⊎ ((find rr.rdata).2 ≢ []))

  abbrev pub geo_of : Dnsrr → RrGeoInfo
  geo_of rr = record {
    country = (find rr.rdata).0;
    city = (find rr.rdata).1;
    asn = (find rr.rdata).2;
  }

  -- A known address is annotated, any other record is left alone.
  abbrev pub Annotates : Dnsrr → Dnsrr → Type 0
  Annotates rr rr' =
      (IsKnown rr × (rr' ≡ record rr { geo = some (geo_of rr) })) ⊎ ((¬ IsKnown rr) × (rr' ≡ rr))

  abbrev pub AnnotatesSection : Text × List Dnsrr → Text × List Dnsrr → Type 0
  AnnotatesSection s s' = (s'.0 ≡ s.0) × All₂ Annotates s.1 s'.1

  with_geo-Annotates :
      (rr : Dnsrr) (ip : Ip)
      → is_address rr ≡ true
      → parse_ip rr.rdata ≡ some ip
      → Annotates rr (with_geo rr (find rr.rdata))
  unfolding is_address with_geo
  with_geo-Annotates rr ip a p = ground (
    arith,
    text_eq_iff rr.rdata_type (codes "A"),
    text_eq_iff rr.rdata_type (codes "AAAA"),
    text_eq_iff (find rr.rdata).0 [],
    text_eq_iff (find rr.rdata).1 [],
    text_eq_iff (find rr.rdata).2 [],
  )

  enrich_rr-Annotates :
      (rr : Dnsrr) → (rr' : Dnsrr) × (enrich_rr parse_ip geoip rr ≡ returned rr') × Annotates rr rr'
  unfolding enrich_rr
  enrich_rr-Annotates rr = elim (Bool-cases (is_address rr)) [
    | inl a ↦ elim (Option-cases (parse_ip rr.rdata)) [
      | inl bad ↦ (rr, rw (a, bad), inr (λ k. cc (k.1.1), refl))
      | inr (ip, good) ↦ (
        with_geo rr (find rr.rdata),
        rw (a, good, found rr.rdata),
        with_geo-Annotates rr ip a good,
      )
    ]
    | inr n ↦ (rr, rw n, inr (λ k. not_address rr n k.0, refl))
  ]
    where
      not_address :
          (rr : Dnsrr)
          → is_address rr ≡ false
          → ((rr.rdata_type ≡ codes "A") ⊎ (rr.rdata_type ≡ codes "AAAA"))
          → ⊥
      not_address rr n k =
          unfold is_address in
          ground
            (arith, text_eq_iff rr.rdata_type (codes "A"), text_eq_iff rr.rdata_type (codes "AAAA"))

  enrich_section-Annotates :
      (s : Text × List Dnsrr)
      → (s' : Text × List Dnsrr) × (enrich_section parse_ip geoip s ≡ returned s')
        × AnnotatesSection s s'
  unfolding enrich_section
  enrich_section-Annotates (section, rrs) =
      let rest = traverse-All₂ Annotates (enrich_rr parse_ip geoip) enrich_rr-Annotates rrs in
      ((section, rest.0), rw (rest.1), (refl, rest.2))

  -- The client's part: the info of the lookup, or the error and the event as it was.
  abbrev pub client_part : G ⊎ GeoipInfo → DnsRawEvent → GeoipInfo
  client_part (inl e) event = event.geoip
  client_part (inr info) event = info

  enrich_client-part :
      (event : DnsRawEvent) (answer : G ⊎ GeoipInfo)
      → geoip.lookup event.network.query_ip ≡ returned answer
      → (errs : List G) × (enrich_client parse_ip geoip event
          ≡ returned (record event { geoip = client_part answer event }, errs))
  unfolding enrich_client with_info
  enrich_client-part event (inl e) h = (e ∷ [], rw h)
  enrich_client-part event (inr info) h = ([], rw h)

  -- With a resolver whose lookups return, the enrichment returns an event that differs from the
  -- given one in two places only: the client's GeoIP info is that of the lookup of the query
  -- address (unchanged where this fails), and in each section of the resource records, in order,
  -- each record is annotated with the country, city and ASN that `LookupIP` gives if it is an A or
  -- AAAA record whose data parse as an address and one of the three is not empty, and is unchanged
  -- if not.
  pub enrich-Annotates :
      (event : DnsRawEvent) (answer : G ⊎ GeoipInfo)
      → geoip.lookup event.network.query_ip ≡ returned answer
      → (event' : DnsRawEvent) × ((errs : List G) × (enrich parse_ip geoip event
            ≡ returned (event', errs)))
        × (event'.geoip ≡ client_part answer event)
        × All₂ AnnotatesSection event.dns.resource event'.dns.resource
        × (record event' { geoip = event.geoip; dns = event.dns } ≡ event)
        × (record event'.dns { resource = event.dns.resource } ≡ event.dns)
  unfolding enrich
  enrich-Annotates event answer h =
      let client = enrich_client-part event answer h in
      let rest =
        traverse-All₂ AnnotatesSection (enrich_section parse_ip geoip) enrich_section-Annotates
          event.dns.resource in
      (
        record event {
          geoip = client_part answer event;
          dns = record event.dns { resource = rest.0 };
        },
        (client.0, rw (client.1, rest.1)),
        refl,
        rest.2,
        refl,
        refl,
      )
