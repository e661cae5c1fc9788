-- ===== src/Influx/Line/Escape.antt =====
-- internal/adapter/outbound/influxdb/writer.go: `escapeTag`, byte by byte.
use mathlib.Core.List.{flat_map}
use dns_flow.Prelude.{
  ℕ, Text, text_eq, Bool, ◌||◌, [], ◌∷◌, ◌++◌, ◌==◌, append_assoc, if◌then◌else◌, ◌≡◌, ◌≢◌, refl,
  ◌∙◌, ap, arith,
}
use dns_flow.Influx.Line.{replace_all, backslash, escape_tag}

abbrev pub is_special : ℕ → Bool
is_special c = c == b'\\' || c == b' ' || c == b',' || c == b'='

unfoldable pub escape_byte : ℕ → Text
escape_byte c = if is_special c then backslash ∷ c ∷ [] else c ∷ []

flat_map-append : (f : ℕ → Text) (s t : Text) → flat_map f (s ++ t) ≡ flat_map f s ++ flat_map f t
unfolding flat_map
flat_map-append f [] t = refl
flat_map-append f (c ∷ s) t = rw (flat_map-append f s t, append_assoc) refl

flat_map-flat_map :
    (f g : ℕ → Text) (s : Text) → flat_map g (flat_map f s) ≡ flat_map (λ c. flat_map g (f c)) s
unfolding flat_map
flat_map-flat_map f g [] = refl
flat_map-flat_map f g (c ∷ s) =
    flat_map-append g (f c) (flat_map f s)
    ∙ ap (λ t. flat_map g (f c) ++ t) (flat_map-flat_map f g s)

-- What a byte becomes under the four replacements in turn.
replaced_byte :
    (c : ℕ)
    → replace_all
        (replace_all
          (replace_all
            (replace_all (c ∷ []) b'\\' (backslash ∷ b'\\' ∷ []))
            b' '
            (backslash ∷ b' ' ∷ []))
          b','
          (backslash ∷ b',' ∷ []))
        b'='
        (backslash ∷ b'=' ∷ [])
      ≡ escape_byte c
unfolding replace_all flat_map escape_byte
replaced_byte c = ground arith

abbrev replaced : Text → Text
replaced s =
    replace_all
      (replace_all
        (replace_all (replace_all s b'\\' (backslash ∷ b'\\' ∷ [])) b' ' (backslash ∷ b' ' ∷ []))
        b',' (backslash ∷ b',' ∷ []))
      b'=' (backslash ∷ b'=' ∷ [])

replace_all-append :
    (s t : Text) (old : ℕ) (new : Text)
    → replace_all (s ++ t) old new ≡ replace_all s old new ++ replace_all t old new
unfolding replace_all
replace_all-append s t old new = flat_map-append _ s t

replaced-append : (s t : Text) → replaced (s ++ t) ≡ replaced s ++ replaced t
replaced-append s t = simp replace_all-append

replaced-flat_map : (s : Text) → replaced s ≡ flat_map escape_byte s
unfolding replace_all flat_map
replaced-flat_map [] = refl
replaced-flat_map (c ∷ s) =
    replaced-append (c ∷ []) s
    ∙ ap (λ t. t ++ replaced s) (replaced_byte c)
    ∙ ap (λ t. escape_byte c ++ t) (replaced-flat_map s)

pub escape_tag-flat_map : (s : Text) → s ≢ [] → escape_tag s ≡ flat_map escape_byte s
unfolding escape_tag
escape_tag-flat_map [] h = absurd (h refl)
escape_tag-flat_map (c ∷ s) h = unfold text_eq in replaced-flat_map (c ∷ s)
