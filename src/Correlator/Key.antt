-- ===== src/Correlator/Key.antt =====
-- internal/usecase/correlator.go: the text key of the map.
use dns_flow.Prelude.{
  ℕ, Text, show, show-injective, show-IsDigit, IsDigit, All, [], ◌∷◌, ◌++◌, ◌≡◌, refl, arith,
}
use dns_flow.Correlator.{key}

-- Digits hold no colon.
no_colon : (s rest : Text) → All IsDigit (s ++ b':' ∷ rest) → ⊥
no_colon [] rest h = omega arith
no_colon (c ∷ s) rest h = no_colon s rest h.1

split_colon :
    (a b s t : Text)
    → All IsDigit s
    → All IsDigit t
    → (a ++ b':' ∷ s) ≡ (b ++ b':' ∷ t)
    → (a ≡ b) × (s ≡ t)
split_colon [] [] s t hs ht e = (refl, cc)
split_colon [] (c ∷ b) s t hs ht e =
    let e' : s ≡ b ++ b':' ∷ t = cc in absurd (no_colon b t (rw (e') at hs))
split_colon (c ∷ a) [] s t hs ht e =
    let e' : t ≡ a ++ b':' ∷ s = cc in absurd (no_colon a s (rw (e') at ht))
split_colon (c ∷ a) (d ∷ b) s t hs ht e =
    let e' : a ++ b':' ∷ s ≡ b ++ b':' ∷ t = cc in
    let ih = split_colon a b s t hs ht e' in (cc (ih.0), ih.1)

-- Two clients or two DNS ids never share a key of the map, whatever bytes the addresses hold (an
-- IPv6 address holds colons itself): equal keys come from equal addresses and equal ids.
pub key-injective : (ip ip' : Text) (id id' : ℕ) → key ip id ≡ key ip' id' → (ip ≡ ip') × (id ≡ id')
unfolding key
key-injective ip ip' id id' e =
    let parts = split_colon ip ip' (show id) (show id') (show-IsDigit id) (show-IsDigit id') e in
    (parts.0, show-injective id id' parts.1)
