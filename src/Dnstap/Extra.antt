-- ===== src/Dnstap/Extra.antt =====
-- internal/adapter/inbound/dnstap/server.go: `parseExtra`, the policy data of DNSDist.
--
-- `strings.Fields` splits at Unicode white space, whose characters beyond ASCII are found here as
-- bytes of UTF-8.
use dns_flow.Prelude.{
  ℕ, zero, suc, ◌-◌, Text, codes, text_eq, Bool, ◌||◌, ◌&&◌, leb, List, [], ◌∷◌, ◌++◌, ◌==◌, Option,
  none, some, if◌then◌else◌,
}
use dns_flow.Domain.{DnsTapInfo}

abbrev pub is_space : ℕ → Bool
is_space c = c == b' ' || (leb 9 c && leb c 13)

abbrev pub add_field : Text → List Text → List Text
add_field [] rest = rest
add_field (c ∷ cur) rest = (c ∷ cur) ∷ rest

-- How many bytes the character of white space at the start takes, 0 if there is none: U+0085,
-- U+00A0, U+1680, U+2000 to U+200A, U+2028, U+2029, U+202F, U+205F and U+3000 beyond ASCII. Their
-- first bytes never continue another character.
abbrev is_wide_pair : ℕ → ℕ → Bool
is_wide_pair a b = a == 194 && (b == 133 || b == 160)

abbrev is_wide_triple : ℕ → ℕ → ℕ → Bool
is_wide_triple a b c =
    (a == 225 && (b == 154 && c == 128))
    || (a == 226 && (b == 128 && ((leb 128 c && leb c 138) || c == 168 || c == 169 || c == 175)))
    || (a == 226 && (b == 129 && c == 159))
    || (a == 227 && (b == 128 && c == 128))

unfoldable pub wide_space : Text → ℕ
wide_space [] = 0
wide_space (a ∷ []) = 0
wide_space (a ∷ b ∷ []) = if is_wide_pair a b then 2 else 0
wide_space (a ∷ b ∷ c ∷ s) = if is_wide_pair a b then 2 else if is_wide_triple a b c then 3 else 0

unfoldable pub space_bytes : Text → ℕ
unfolding wide_space
space_bytes [] = 0
space_bytes (c ∷ s) = if leb 128 c then wide_space (c ∷ s) else if is_space c then 1 else 0

-- `strings.Fields`; `cur` is the field that is being read, and `skip` counts the bytes left of a
-- white space.
unfoldable pub fields_from : ℕ → Text → Text → List Text
unfolding space_bytes
fields_from skip cur [] = add_field cur []
fields_from (suc skip) cur (c ∷ s) = fields_from skip cur s
fields_from zero cur (c ∷ s) =
    let width = space_bytes (c ∷ s) in
    let split = add_field cur (fields_from (width - 1) [] s) in
    let keep = fields_from 0 (cur ++ c ∷ []) s in if width == 0 then keep else split

unfoldable pub fields : Text → List Text
unfolding fields_from
fields s = fields_from 0 [] s

-- `strings.Cut(field, "=")`: what stands before and behind the first `=`, if there is one.
unfoldable pub cut : Text → Option (Text × Text)
cut [] = none
cut (c ∷ s) =
    if c == b'='
    then some ([], s)
    else (elim (cut s) [ none ↦ none | some (k, v) ↦ some (c ∷ k, v) ])

-- The `switch` on the key; any other key is passed over.
unfoldable pub set_policy : Text → Text → DnsTapInfo → DnsTapInfo
set_policy k v t =
    if text_eq k (codes "peer-name")
    then record t { peer_name = v }
    else if text_eq k (codes "policy-rule")
    then record t { policy_rule = v }
    else if text_eq k (codes "policy-type")
    then record t { policy_type = v }
    else if text_eq k (codes "policy-match")
    then record t { policy_match = v }
    else if text_eq k (codes "policy-value")
    then record t { policy_value = v }
    else t

unfoldable pub apply_field : Text → DnsTapInfo → DnsTapInfo
unfolding set_policy
apply_field field t = elim (cut field) [ none ↦ t | some (k, v) ↦ set_policy k v t ]

unfoldable pub apply_fields : List Text → DnsTapInfo → DnsTapInfo
apply_fields [] t = t
apply_fields (field ∷ rest) t = apply_fields rest (apply_field field t)

unfoldable pub parse_extra : Text → DnsTapInfo → DnsTapInfo
unfolding fields apply_fields apply_field cut
parse_extra extra t = apply_fields (fields extra) t
