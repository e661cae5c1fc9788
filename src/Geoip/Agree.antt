-- ===== src/Geoip/Agree.antt =====
-- internal/adapter/outbound/geoip/maxmind.go: `Lookup` and `LookupIP` side by side.
use dns_flow.Prelude.{Text, [], Option, Option-cases, none, some, inl, inr, ◌⊎◌, ◌≡◌, refl, arith}
use dns_flow.Prelude.Outcome.{returned}
use dns_flow.Domain.{GeoipInfo}
use dns_flow.Geoip.{
  MaxMindResolver, GeoError, invalid_ip, CityDb, AsnDb, city_info, asn_info, city_names, asn_name,
  new_info, lookup, lookup_ip,
}

-- What `LookupIP` should give for a result of `Lookup`: its country, city and ASN, and three empty
-- texts for an error.
abbrev pub summary : GeoError ⊎ GeoipInfo → Text × Text × Text
summary (inl e) = ([], [], [])
summary (inr info) = (info.client_country, info.client_city, info.client_asn)

module _ {Ip : Type 0} where
  city_info-names :
      (db : Option (CityDb Ip)) (ip : Ip) (info : GeoipInfo)
      → info.client_country ≡ []
      → info.client_city ≡ []
      → ((city_info db ip info).client_country ≡ (city_names db ip).0)
        × ((city_info db ip info).client_city ≡ (city_names db ip).1)
        × ((city_info db ip info).client_asn ≡ info.client_asn)
        × ((city_info db ip info).client_ip ≡ info.client_ip)
  unfolding city_info city_names
  city_info-names none ip info c t = (c, t, refl, refl)
  city_info-names (some db) ip info c t = ground arith

  asn_info-name :
      (db : Option (AsnDb Ip)) (ip : Ip) (info : GeoipInfo)
      → info.client_asn ≡ []
      → ((asn_info db ip info).client_asn ≡ asn_name db ip)
        × ((asn_info db ip info).client_country ≡ info.client_country)
        × ((asn_info db ip info).client_city ≡ info.client_city)
        × ((asn_info db ip info).client_ip ≡ info.client_ip)
  unfolding asn_info asn_name
  asn_info-name none ip info a = (a, refl, refl, refl)
  asn_info-name (some db) ip info a = ground arith

module _ {Ip : Type 0} (parse_ip : Text → Option Ip) where
  -- Through a pointer that is not nil, `Lookup` and `LookupIP` return on every text, and `LookupIP`
  -- gives the country, the city and the ASN of the info that `Lookup` returns, or three empty texts
  -- where `Lookup` returns an error.
  pub lookup-lookup_ip :
      (m : MaxMindResolver Ip) (ip : Text)
      → (r : GeoError ⊎ GeoipInfo) × (lookup parse_ip (some m) ip ≡ returned r)
        × (lookup_ip parse_ip (some m) ip ≡ returned (summary r))
  unfolding lookup lookup_ip
  lookup-lookup_ip m ip = elim (Option-cases (parse_ip ip)) [
    | inl bad ↦ (inl (invalid_ip ip), rw (bad, lookup), rw (bad, lookup_ip))
    | inr (parsed, good) ↦ (
      inr (asn_info m.asn_db parsed (city_info m.city_db parsed (new_info ip))),
      rw (good, lookup),
      rw (good, lookup_ip)
          (let c = city_info-names m.city_db parsed (new_info ip) refl refl in
            let a = asn_info-name m.asn_db parsed (city_info m.city_db parsed (new_info ip)) c.2 in
            cc (c.0, c.1, a.0, a.1, a.2)),
    )
  ]
