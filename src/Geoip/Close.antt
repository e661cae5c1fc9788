-- ===== src/Geoip/Close.antt =====
-- internal/adapter/outbound/geoip/maxmind.go: `Health` and `Close`.
use dns_flow.Prelude.{Text, codes, Bool, true, false, [], ◌∷◌, Option, none, some}
use dns_flow.Prelude.Outcome.{Outcome, returned, panicked}
use dns_flow.Prelude.Dict.{Dict}
use dns_flow.Geoip.{MaxMindResolver}

abbrev is_some {ℓ} : {A : Type ℓ} → Option A → Bool
is_some none = false
is_some (some a) = true

-- Also through the nil pointer.
unfoldable pub health : Dict Text
health = (codes "geoip", codes "loaded") ∷ []

-- Which of the two readers it closes.
unfoldable pub close : {Ip : Type 0} → Option (MaxMindResolver Ip) → Outcome (Bool × Bool)
close none = panicked
close (some m) = returned (is_some m.city_db, is_some m.asn_db)
