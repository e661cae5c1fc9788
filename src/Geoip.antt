-- ===== src/Geoip.antt =====
-- internal/adapter/outbound/geoip/maxmind.go: country, city and ASN of an address.
--
-- Parameters: `net.ParseIP` and the MaxMind readers of maxminddb-golang. A reader is its function
-- from an address to the record, or to `none` where `Lookup` returns an error. The latitude and
-- the longitude of a record and the organization of an ASN are decoded and never read.
pub mod Agree
pub mod Close
use dns_flow.Prelude.{
  ℕ, Text, codes, show, List, [], ◌∷◌, ◌++◌, Option, none, some, ◌⊎◌, inl, inr, text_eq,
  if◌then◌else◌,
}
use dns_flow.Prelude.Dict
use dns_flow.Prelude.Dict.{Dict}
use dns_flow.Prelude.Outcome.{Outcome, returned, panicked, ◌>>=◌}
use dns_flow.Domain.{GeoipInfo}
use dns_flow.Domain.Ports.{GeoipResolver}

pub record GeoCityRecord : Type 0 where
  pub iso_code : Text
  pub names : Dict Text

pub record GeoAsnRecord : Type 0 where
  pub autonomous_system_number : ℕ

pub data GeoError : Type 0 where
  invalid_ip : Text → GeoError
  open_city_failed : Text → GeoError
  open_asn_failed : Text → GeoError

abbrev pub CityDb : Type 0 → Type 0
CityDb Ip = Ip → Option GeoCityRecord

abbrev pub AsnDb : Type 0 → Type 0
AsnDb Ip = Ip → Option GeoAsnRecord

pub record MaxMindResolver (Ip : Type 0) : Type 0 where
  pub city_db : Option (CityDb Ip)
  pub asn_db : Option (AsnDb Ip)

module _ {Ip : Type 0} (open_city : Text → Option (CityDb Ip))
    (open_asn : Text → Option (AsnDb Ip)) where
  open_asn_db : Text → CityDb Ip → GeoError ⊎ MaxMindResolver Ip
  open_asn_db path city =
      if text_eq path []
      then inr (record { city_db = some city; asn_db = none })
      else elim (open_asn path) [
        | none ↦ inl (open_asn_failed path)
        | some asn ↦ inr (record { city_db = some city; asn_db = some asn })
      ]

  -- Without a city path no database is opened at all.
  unfoldable pub new_max_mind_resolver : Text → Text → GeoError ⊎ MaxMindResolver Ip
  unfolding open_asn_db
  new_max_mind_resolver city_path asn_path =
      if text_eq city_path []
      then inr (record { city_db = none; asn_db = none })
      else elim (open_city city_path) [
        | none ↦ inl (open_city_failed city_path)
        | some city ↦ open_asn_db asn_path city
      ]

-- The branches of `Lookup` on the city database, with the fields as they stand.
module _ {Ip : Type 0} where
  unfoldable pub city_info : Option (CityDb Ip) → Ip → GeoipInfo → GeoipInfo
  city_info none ip info = info
  city_info (some db) ip info = elim (db ip) [
    | none ↦ info
    | some rec ↦ record info {
      client_country = rec.iso_code;
      client_city = elim (Dict.lookup (codes "en") rec.names) [
        | none ↦ info.client_city
        | some name ↦ name
      ];
    }
  ]

  unfoldable pub asn_info : Option (AsnDb Ip) → Ip → GeoipInfo → GeoipInfo
  asn_info none ip info = info
  asn_info (some db) ip info = elim (db ip) [
    | none ↦ info
    | some rec ↦ record info { client_asn = codes "AS" ++ show rec.autonomous_system_number }
  ]

  -- The locals of `LookupIP`.
  unfoldable pub city_names : Option (CityDb Ip) → Ip → Text × Text
  city_names none ip = ([], [])
  city_names (some db) ip = elim (db ip) [
    | none ↦ ([], [])
    | some rec ↦
        (rec.iso_code, elim (Dict.lookup (codes "en") rec.names) [ none ↦ [] | some name ↦ name ])
  ]

  unfoldable pub asn_name : Option (AsnDb Ip) → Ip → Text
  asn_name none ip = []
  asn_name (some db) ip = elim (db ip) [
    | none ↦ []
    | some rec ↦ codes "AS" ++ show rec.autonomous_system_number
  ]

abbrev pub new_info : Text → GeoipInfo
new_info ip = record { client_ip = ip; client_country = []; client_city = []; client_asn = [] }

module _ {Ip : Type 0} (parse_ip : Text → Option Ip) where
  -- The receiver is a pointer: the address is parsed before it is followed, and following a nil
  -- pointer panics.
  lookup_parsed : Option (MaxMindResolver Ip) → Text → Ip → Outcome (GeoError ⊎ GeoipInfo)
  lookup_parsed none ip parsed = panicked
  lookup_parsed (some m) ip parsed =
      returned (inr (asn_info m.asn_db parsed (city_info m.city_db parsed (new_info ip))))

  unfoldable pub lookup : Option (MaxMindResolver Ip) → Text → Outcome (GeoError ⊎ GeoipInfo)
  unfolding lookup_parsed
  lookup m ip = elim (parse_ip ip) [
    | none ↦ returned (inl (invalid_ip ip))
    | some parsed ↦ lookup_parsed m ip parsed
  ]

  lookup_ip_parsed : Option (MaxMindResolver Ip) → Ip → Outcome (Text × Text × Text)
  lookup_ip_parsed none parsed = panicked
  lookup_ip_parsed (some m) parsed =
      let (country, city) = city_names m.city_db parsed in
      returned (country, city, asn_name m.asn_db parsed)

  unfoldable pub lookup_ip : Option (MaxMindResolver Ip) → Text → Outcome (Text × Text × Text)
  unfolding lookup_ip_parsed
  lookup_ip m ip = elim (parse_ip ip) [
    | none ↦ returned ([], [], [])
    | some parsed ↦ lookup_ip_parsed m parsed
  ]

  -- A pointer to a resolver as a value of the interface.
  unfoldable pub as_resolver : Option (MaxMindResolver Ip) → GeoipResolver GeoError
  as_resolver m = record { lookup = lookup m; lookup_ip = lookup_ip m }
