-- ===== src/Influx/Line/Inject.antt =====
-- internal/adapter/outbound/influxdb/writer.go: line breaks in the tag section.
use mathlib.Core.List.{flat_map}
use dns_flow.Prelude.{
  ℕ, ◌+◌, Text, text_eq, [], ◌∷◌, ◌++◌, ◌==◌, ◌≡◌, refl, ◌∙◌, count, count-append, arith,
}
use mathlib.Core.List.{cons-ne-nil}
use dns_flow.Domain.{DnsRawEvent}
use dns_flow.Influx.Line.{escape_tag, tags_of}
use dns_flow.Influx.Line.Escape.{escape_byte, escape_tag-flat_map}

abbrev pub line_breaks : Text → ℕ
line_breaks = count (λ c. c == b'\n')

count-escape_byte : (c : ℕ) (s : Text) → line_breaks (escape_byte c ++ s) ≡ line_breaks (c ∷ s)
unfolding escape_byte count
count-escape_byte c s = ground arith

count-flat_map : (s : Text) → line_breaks (flat_map escape_byte s) ≡ line_breaks s
unfolding flat_map count
count-flat_map [] = refl
count-flat_map (c ∷ s) =
    count-escape_byte c (flat_map escape_byte s) ∙ ground (arith, count-flat_map s)

count-escape_tag : (s : Text) → line_breaks (escape_tag s) ≡ line_breaks s
count-escape_tag [] = unfold escape_tag text_eq count in refl
count-escape_tag (c ∷ s) =
    rw (escape_tag-flat_map (c ∷ s) (cons-ne-nil c s)) (count-flat_map (c ∷ s))

-- The tag section of a line holds every line break of its seven values as it stands, so that a
-- value with one of them breaks the line in two before its fields.
pub line_breaks-tags_of :
    (event : DnsRawEvent)
    → line_breaks (tags_of event)
      ≡ line_breaks event.dnstap.identity
        + line_breaks event.dnstap.operation
        + line_breaks event.dnstap.version
        + line_breaks event.dnstap.type
        + line_breaks event.geoip.client_country
        + line_breaks event.geoip.client_city
        + line_breaks event.geoip.client_asn
unfolding tags_of count
line_breaks-tags_of event = simp (count-append, count-escape_tag) (omega arith)
