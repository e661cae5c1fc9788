-- ===== src/File/Cleanup/Backup.antt =====
-- internal/adapter/outbound/file/writer.go: which entries of the directory `cleanup` takes for
-- backups.
use mathlib.Core.List.{reverse, reverse-append, reverse-reverse}
use dns_flow.Prelude.{
  ℕ, Text, codes, text_eq, starts_with, ends_with, Bool, Bool-cases, true, false, not, ◌&&◌, ◌||◌,
  [], ◌∷◌, ◌++◌, ◌==◌, ◌≡◌, ◌≢◌, ◌↔◌, ◌⊎◌, inl, inr, refl, sym, ap, ◌∙◌, arith, if◌then◌else◌,
}
use dns_flow.File.{Config, ext}
use dns_flow.File.Cleanup.{is_backup, base_name, trim_suffix, contains_byte}

starts_with-StartsWith : (s p : Text) → (starts_with s p ≡ true) ↔ ((rest : Text) × (s ≡ p ++ rest))
unfolding starts_with
starts_with-StartsWith s [] = (λ h. (s, refl), λ h. refl)
starts_with-StartsWith [] (d ∷ p) = (λ h. cc, λ (rest, e). cc)
starts_with-StartsWith (c ∷ s) (d ∷ p) =
    let (there, back) = starts_with-StartsWith s p in
    (
      λ h. let first : c ≡ d = ground arith in let (rest, e) = there (ground arith) in (rest, cc),
      λ (rest, e).
          let first : c ≡ d = cc in
          let tail : s ≡ p ++ rest = cc in
          let later : starts_with s p ≡ true = back (rest, tail) in ground arith,
    )

ends_with-EndsWith : (s p : Text) → (ends_with s p ≡ true) ↔ ((front : Text) × (s ≡ front ++ p))
unfolding ends_with
ends_with-EndsWith s p =
    let (there, back) = starts_with-StartsWith (reverse s) (reverse p) in
    (
      λ h.
          let (rest, e) = there h in
          (
            reverse rest,
            sym (reverse-reverse s)
                ∙ ap reverse e
                ∙ reverse-append (reverse p) rest
                ∙ ap (λ (t : Text). reverse rest ++ t) (reverse-reverse p),
          ),
      λ (front, e). back (reverse front, ap reverse e ∙ reverse-append front p),
    )

contains_byte-split :
    (b : ℕ) (s : Text)
    → (contains_byte b s ≡ true) ↔ ((front : Text) × (rest : Text) × (s ≡ front ++ b ∷ rest))
unfolding contains_byte
contains_byte-split b [] = (λ h. cc, λ (front, rest, e). absurd (not_split front rest e))
  where
    not_split : (front rest : Text) → [] ≢ (front ++ b ∷ rest)
    not_split [] rest = λ e. cc
    not_split (c ∷ front) rest = λ e. cc
contains_byte-split b (c ∷ s) =
    let (there, back) = contains_byte-split b s in
    (
      λ h. elim (Bool-cases (c == b)) [
        | inl same ↦ let first : c ≡ b = ground arith in ([], s, cc)
        | inr other ↦ let (front, rest, e) = there (ground arith) in (c ∷ front, rest, cc)
      ],
      λ (front, rest, e). found front rest e back,
    )
  where
    found :
        (front rest : Text)
        → (c ∷ s) ≡ (front ++ b ∷ rest)
        → (((front : Text) × (rest : Text) × (s ≡ front ++ b ∷ rest)) → contains_byte b s ≡ true)
        → (c == b || contains_byte b s) ≡ true
    found [] rest e back = let first : c ≡ b = cc in ground arith
    found (d ∷ front) rest e back =
        let tail : s ≡ front ++ b ∷ rest = cc in
        let later : contains_byte b s ≡ true = back (front, rest, tail) in ground arith

module _ (cfg : Config) where
  -- The name of the active file without its extension.
  abbrev pub stem : Text
  stem = trim_suffix (base_name cfg.path) (ext cfg.path)

  abbrev pub unzipped : Text → Text
  unzipped name = if text_eq (ext name) (codes ".gz") then trim_suffix name (codes ".gz") else name

  -- The name is the stem, a dot and any text; with compression it ends in ".gz"; and a dot stands in
  -- it apart from such an ending. The name of the active file is one without compression.
  abbrev pub IsBackup : Text → Type 0
  IsBackup name =
      ((rest : Text) × (name ≡ (stem ++ b'.' ∷ []) ++ rest))
      × ((cfg.compress ≡ false) ⊎ ((front : Text) × (name ≡ front ++ codes ".gz")))
      × ((front : Text) × (rest : Text) × (unzipped name ≡ front ++ b'.' ∷ rest))

  conjunction :
      (a b c z : Bool)
      → ((a && not (b && not z) && c) ≡ true)
        ↔ ((a ≡ true) × ((b ≡ false) ⊎ (z ≡ true)) × (c ≡ true))
  conjunction a b c z = (λ h. ground arith, λ h. ground arith)

  pub is_backup_iff : (name : Text) → (is_backup cfg name ≡ true) ↔ IsBackup name
  unfolding is_backup
  is_backup_iff name =
      let prefix = starts_with-StartsWith name (stem ++ b'.' ∷ []) in
      let zipped = ends_with-EndsWith name (codes ".gz") in
      let dotted = contains_byte-split b'.' (unzipped name) in
      let parts =
        conjunction (starts_with name (stem ++ b'.' ∷ [])) cfg.compress
          (contains_byte b'.' (unzipped name)) (ends_with name (codes ".gz")) in
      (
        λ h.
            let (a, z, c) = parts.0 h in
            (prefix.0 a, elim z [ inl off ↦ inl off | inr on ↦ inr (zipped.0 on) ], dotted.0 c),
        λ (a, z, c).
            parts.1
              (prefix.1 a, elim z [ inl off ↦ inl off | inr on ↦ inr (zipped.1 on) ], dotted.1 c),
      )
