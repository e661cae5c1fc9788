-- ===== src/Influx/Line/Tags.antt =====
-- Reading the tag section of a line back, as the line protocol defines it: a byte behind a
-- backslash stands for itself, the first other `=`, comma or space ends a key or a value, and a line
-- break ends the line wherever it stands.
use mathlib.Core.List.{flat_map, cons-ne-nil}
use dns_flow.Prelude.{
  ℕ, zero, suc, Text, codes, text_eq, Bool, true, false, ◌||◌, List, [], ◌∷◌, ◌++◌, ◌==◌,
  append_assoc, if◌then◌else◌, ◌≡◌, ◌≢◌, refl, arith, All, Lacks,
}
use dns_flow.Domain.{DnsRawEvent}
use dns_flow.Influx.Line.{backslash, escape_tag, tags_of}
use dns_flow.Influx.Line.Escape.{is_special, escape_byte, escape_tag-flat_map}

-- The text up to the first unescaped byte that stops it, unescaped, and what follows that byte.
-- The last argument says that a backslash has just been read. Nothing follows where a line break
-- ends the line.
token : (ℕ → Bool) → Text → Bool → Text × Text
token stop [] pending = ([], [])
token stop (c ∷ s) true =
    let later = token stop s false in if c == b'\n' then ([], []) else (c ∷ later.0, later.1)
token stop (c ∷ s) false =
    let escaped = token stop s true in
    let plain = token stop s false in
    if c == b'\n'
    then ([], [])
    else if stop c
    then ([], s)
    else if c == backslash
    then escaped
    else (c ∷ plain.0, plain.1)

abbrev key_end : ℕ → Bool
key_end c = c == b'='

abbrev value_end : ℕ → Bool
value_end c = c == b',' || c == b' '

-- `n` pairs of a key and a value, and what follows the last value.
unfoldable pub read_tags : ℕ → Text → List (Text × Text) × Text
unfolding token
read_tags zero s = ([], s)
read_tags (suc n) s =
    let (key, behind_key) = token key_end s false in
    let (value, behind_value) = token value_end behind_key false in
    let (tags, rest) = read_tags n behind_value in ((key, value) ∷ tags, rest)

token-escape_byte :
    (c : ℕ) (s : Text)
    → c ≢ b'\n'
    → token value_end (escape_byte c ++ s) false
      ≡ (c ∷ (token value_end s false).0, (token value_end s false).1)
unfolding token escape_byte
token-escape_byte c s h = ground arith

token-flat_map :
    (s : Text) (d : ℕ) (rest : Text)
    → Lacks b'\n' s
    → token value_end (d ∷ rest) false ≡ ([], rest)
    → token value_end (flat_map escape_byte s ++ d ∷ rest) false ≡ (s, rest)
unfolding flat_map
token-flat_map [] d rest one h = h
token-flat_map (c ∷ s) d rest (other, one) h =
    rw
      (
        append_assoc (escape_byte c) (flat_map escape_byte s) (d ∷ rest),
        token-escape_byte c _ other,
        token-flat_map s d rest one h,
      )
      refl

-- What a value is read back as: itself, or `unknown` where it is empty.
abbrev pub shown : Text → Text
shown s = if text_eq s [] then codes "unknown" else s

token_unknown :
    (d : ℕ) (rest : Text)
    → token value_end (d ∷ rest) false ≡ ([], rest)
    → token value_end (codes "unknown" ++ d ∷ rest) false ≡ (codes "unknown", rest)
unfolding token
token_unknown d rest h = rw h refl

token-escape_tag :
    (s : Text) (d : ℕ) (rest : Text)
    → Lacks b'\n' s
    → token value_end (d ∷ rest) false ≡ ([], rest)
    → token value_end (escape_tag s ++ d ∷ rest) false ≡ (shown s, rest)
token-escape_tag [] d rest one h = unfold text_eq escape_tag token in token_unknown d rest h
token-escape_tag (c ∷ s) d rest one h =
    rw (escape_tag-flat_map (c ∷ s) (cons-ne-nil c s))
      (unfold text_eq in token-flat_map (c ∷ s) d rest one h)

-- One pair, given how its key is read.
read_pair :
    (n : ℕ) (s : Text) (key value : Text) (d : ℕ) (rest : Text) {tags : List (Text × Text)}
    {end : Text}
    → token key_end s false ≡ (key, escape_tag value ++ d ∷ rest)
    → Lacks b'\n' value
    → token value_end (d ∷ rest) false ≡ ([], rest)
    → read_tags n rest ≡ (tags, end)
    → read_tags (suc n) s ≡ ((key, shown value) ∷ tags, end)
unfolding read_tags
read_pair n s key value d rest h one stops later =
    rw (h, token-escape_tag value d rest one stops, later) refl

abbrev pub tag_values : DnsRawEvent → List (Text × Text)
tag_values event =
    (codes "identity", shown event.dnstap.identity)
    ∷ (codes "operation", shown event.dnstap.operation)
    ∷ (codes "dnstap_version", shown event.dnstap.version)
    ∷ (codes "dnstap_type", shown event.dnstap.type)
    ∷ (codes "client_country", shown event.geoip.client_country)
    ∷ (codes "client_city", shown event.geoip.client_city)
    ∷ (codes "client_asn", shown event.geoip.client_asn)
    ∷ []

read_nothing : (s : Text) → read_tags zero s ≡ ([], s)
unfolding read_tags
read_nothing s = refl

-- None of the seven values has a line break.
abbrev pub IsOneLine : DnsRawEvent → Type 0
IsOneLine event =
    Lacks b'\n' event.dnstap.identity
    × Lacks b'\n' event.dnstap.operation
    × Lacks b'\n' event.dnstap.version
    × Lacks b'\n' event.dnstap.type
    × Lacks b'\n' event.geoip.client_country
    × Lacks b'\n' event.geoip.client_city
    × Lacks b'\n' event.geoip.client_asn

-- Whatever bytes but line breaks the event's values hold, the tag section followed by the space that ends it is
-- read back as the seven keys in their order, each with its value, or `unknown` for an empty one,
-- and the reader stands right behind that space: no value ends early or runs into the next.
pub read_tags-tags_of :
    (event : DnsRawEvent) (rest : Text)
    → IsOneLine event
    → read_tags 7 (tags_of event ++ b' ' ∷ rest) ≡ (tag_values event, rest)
unfolding tags_of token
read_tags-tags_of event rest (one, two, three, four, five, six, seven) = simp append_assoc (
    read_pair 6 _ (codes "identity") event.dnstap.identity b',' _ refl one refl (
      read_pair 5 _ (codes "operation") event.dnstap.operation b',' _ refl two refl (
        read_pair 4 _ (codes "dnstap_version") event.dnstap.version b',' _ refl three refl (
          read_pair 3 _ (codes "dnstap_type") event.dnstap.type b',' _ refl four refl (
            read_pair 2 _ (codes "client_country") event.geoip.client_country b',' _ refl five refl
              (read_pair 1 _ (codes "client_city") event.geoip.client_city b',' _ refl six refl (
                read_pair 0 _ (codes "client_asn") event.geoip.client_asn b' ' rest refl seven refl
                  (read_nothing rest))))))))

-- The measurement, the seven tags, and what follows them.
pub read_line : Text → Text × List (Text × Text) × Text
read_line s =
    let (name, behind) = token value_end s false in
    let (tags, rest) = read_tags 7 behind in (name, tags, rest)

-- Without spaces, commas, equals signs, backslashes and line breaks.
abbrev pub IsPlain : Text → Type 0
IsPlain s = All (λ c. (is_special c ≡ false) × (c ≢ b'\n')) s
