-- ===== src/Dnstap/Policy.antt =====
-- internal/adapter/inbound/dnstap/server.go: `parseExtra` on fields `key=value`.
use dns_flow.Prelude.{
  leb, Text, codes, text_eq, text_eq_iff, false, List, [], ◌∷◌, ◌++◌, append_assoc, append-nil, map,
  ◌==◌, Option, none, some, ◌≡◌, refl, ◌∙◌, ap, sym, subst, arith, if◌then◌else◌,
}
use dns_flow.Domain.{DnsTapInfo}
use dns_flow.Dnstap.Extra.{
  is_space, space_bytes, add_field, fields_from, fields, cut, set_policy, apply_field, apply_fields,
  parse_extra,
}

-- ASCII without white space.
abbrev pub Word : Text → Type 0
Word [] = Unit
Word (c ∷ s) = ((leb 128 c ≡ false) × (is_space c ≡ false)) × Word s

abbrev pub KeyWord : Text → Type 0
KeyWord [] = Unit
KeyWord (c ∷ s) = ((leb 128 c ≡ false) × (is_space c ≡ false)) × ((c == b'=') ≡ false) × KeyWord s

abbrev pub IsFields : List (Text × Text) → Type 0
IsFields [] = Unit
IsFields ((k, v) ∷ rest) = KeyWord k × Word v × IsFields rest

abbrev pub field_text : Text × Text → Text
field_text (k, v) = k ++ b'=' ∷ v

abbrev pub render : List (Text × Text) → Text
render [] = []
render (kv ∷ rest) = field_text kv ++ b' ' ∷ render rest

-- The last value that a list of fields gives to a key.
abbrev pub last_value : Text → List (Text × Text) → Text → Text
last_value key [] before = before
last_value key ((k, v) ∷ rest) before = last_value key rest (if text_eq k key then v else before)

cut-field_text : (k v : Text) → KeyWord k → cut (field_text (k, v)) ≡ some (k, v)
unfolding cut
cut-field_text [] v h = refl
cut-field_text (c ∷ k) v (hs, he, hk) = rw (he, cut-field_text k v hk) refl

-- A word that stands before a blank is one field.
fields_from-Word :
    (cur s rest : Text)
    → Word s
    → fields_from 0 cur (s ++ b' ' ∷ rest) ≡ add_field (cur ++ s) (fields_from 0 [] rest)
unfolding fields_from space_bytes
fields_from-Word cur [] rest h = rw (append-nil cur) refl
fields_from-Word cur (c ∷ s) rest ((low, hc), h) =
    rw (low, hc, fields_from-Word (cur ++ c ∷ []) s rest h, append_assoc cur (c ∷ []) s) refl

field_text-Word : (k v : Text) → KeyWord k → Word v → Word (field_text (k, v))
field_text-Word [] v hk hv = ((refl, refl), hv)
field_text-Word (c ∷ k) v (hs, he, hk) hv = (hs, field_text-Word k v hk hv)

fields_from-field_text :
    (k v rest : Text)
    → KeyWord k
    → Word v
    → fields_from 0 [] (field_text (k, v) ++ b' ' ∷ rest)
      ≡ field_text (k, v) ∷ fields_from 0 [] rest
fields_from-field_text [] v rest hk hv =
    fields_from-Word [] (field_text ([], v)) rest (field_text-Word [] v hk hv)
fields_from-field_text (c ∷ k) v rest hk hv =
    fields_from-Word [] (field_text (c ∷ k, v)) rest (field_text-Word (c ∷ k) v hk hv)

fields-render : (kvs : List (Text × Text)) → IsFields kvs → fields (render kvs) ≡ map field_text kvs
unfolding fields fields_from
fields-render [] h = refl
fields-render ((k, v) ∷ kvs) (hk, hv, h) =
    fields_from-field_text k v (render kvs) hk hv
    ∙ ap (λ fs. field_text (k, v) ∷ fs) (fields-render kvs h)

-- What the policy fields are after all fields were read: a key's last value.
abbrev pub Policies : List (Text × Text) → DnsTapInfo → DnsTapInfo → Type 0
Policies kvs t u =
    (u.peer_name ≡ last_value (codes "peer-name") kvs t.peer_name)
    × (u.policy_rule ≡ last_value (codes "policy-rule") kvs t.policy_rule)
    × (u.policy_type ≡ last_value (codes "policy-type") kvs t.policy_type)
    × (u.policy_match ≡ last_value (codes "policy-match") kvs t.policy_match)
    × (u.policy_value ≡ last_value (codes "policy-value") kvs t.policy_value)
    × (u.http_protocol ≡ t.http_protocol)
    × (u.extra ≡ t.extra)

abbrev updated : Text → Text → Text → Text → Text
updated key k v before = if text_eq k key then v else before

set_policy-fields :
    (k v : Text) (t : DnsTapInfo)
    → set_policy k v t ≡ record t {
      peer_name = updated (codes "peer-name") k v t.peer_name;
      policy_rule = updated (codes "policy-rule") k v t.policy_rule;
      policy_type = updated (codes "policy-type") k v t.policy_type;
      policy_match = updated (codes "policy-match") k v t.policy_match;
      policy_value = updated (codes "policy-value") k v t.policy_value;
    }
unfolding set_policy
set_policy-fields k v t = ground (
  arith,
  text_eq_iff k (codes "peer-name"),
  text_eq_iff k (codes "policy-rule"),
  text_eq_iff k (codes "policy-type"),
  text_eq_iff k (codes "policy-match"),
  text_eq_iff k (codes "policy-value"),
)

apply_field-field_text :
    (k v : Text) (t : DnsTapInfo)
    → KeyWord k
    → apply_field (field_text (k, v)) t ≡ record t {
      peer_name = updated (codes "peer-name") k v t.peer_name;
      policy_rule = updated (codes "policy-rule") k v t.policy_rule;
      policy_type = updated (codes "policy-type") k v t.policy_type;
      policy_match = updated (codes "policy-match") k v t.policy_match;
      policy_value = updated (codes "policy-value") k v t.policy_value;
    }
unfolding apply_field
apply_field-field_text k v t hk =
    ap (λ (o : Option (Text × Text)). elim o [ none ↦ t | some (a, b) ↦ set_policy a b t ])
      (cut-field_text k v hk)
    ∙ set_policy-fields k v t

apply_fields-Policies :
    (kvs : List (Text × Text)) (t : DnsTapInfo)
    → IsFields kvs
    → Policies kvs t (apply_fields (map field_text kvs) t)
unfolding apply_fields
apply_fields-Policies [] t h = (refl, refl, refl, refl, refl, refl, refl)
apply_fields-Policies ((k, v) ∷ kvs) t (hk, hv, h) =
    subst (λ u. Policies ((k, v) ∷ kvs) t (apply_fields (map field_text kvs) u))
      (sym (apply_field-field_text k v t hk)) (apply_fields-Policies kvs _ h)

-- Of an extra text that is a list of fields `key=value`, each followed by a blank, where a key
-- is ASCII without white space and `=`, and a value is ASCII without white space, `parseExtra` sets each of the five
-- policy fields to the last value given to its key; a field whose key is not given keeps what it
-- held, and so do the protocol of HTTP and the extra text itself, whatever keys are given.
pub parse_extra-Policies :
    (kvs : List (Text × Text)) (t : DnsTapInfo)
    → IsFields kvs
    → Policies kvs t (parse_extra (render kvs) t)
unfolding parse_extra
parse_extra-Policies kvs t h = rw (fields-render kvs h) (apply_fields-Policies kvs t h)
