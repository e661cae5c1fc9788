-- ===== src/File/Cleanup.antt =====
-- internal/adapter/outbound/file/writer.go: `cleanup`.
--
-- Parameters: the names in the directory, and the age of a file, in nanoseconds, `none` where
-- `os.Stat` fails. The result lists the names that are removed. `sort.Sort` on names is determined by
-- their order, and stands as an insertion sort.
pub mod Sorted
pub mod Backup
pub mod Oldest
use mathlib.Core.List.{reverse}
use dns_flow.Prelude.{
  ℕ, ◌+◌, ◌-◌, ◌*◌, Text, codes, text_eq, starts_with, ends_with, Bool, true, false, not, ◌&&◌,
  ◌||◌, List, [], ◌∷◌, ◌++◌, ◌==◌, Option, none, some, length, take, filter, ltb, leb,
  if◌then◌else◌,
}
use dns_flow.Prelude.Int.{ℤ, pos, negsuc, pos_part, ltb_ℤ, wrap_i64}
use dns_flow.File.{Config, ext}

-- `filepath.Base`, of a reversed path without slashes at its end.
unfoldable pub base_from : Text → Text → Text
base_from [] name = name
base_from (c ∷ s) name = let rest = base_from s (c ∷ name) in if c == b'/' then name else rest

unfoldable pub skip_slashes : Text → Text
skip_slashes [] = []
skip_slashes (c ∷ s) = let rest = skip_slashes s in if c == b'/' then rest else c ∷ s

unfoldable pub base_name : Text → Text
unfolding base_from skip_slashes
base_name [] = codes "."
base_name (c ∷ s) =
    let name = base_from (skip_slashes (reverse (c ∷ s))) [] in
    if text_eq name [] then codes "/" else name

-- `strings.TrimSuffix`
unfoldable pub trim_suffix : Text → Text → Text
trim_suffix s suffix = if ends_with s suffix then take (length s - length suffix) s else s

unfoldable pub contains_byte : ℕ → Text → Bool
contains_byte b [] = false
contains_byte b (c ∷ s) = c == b || contains_byte b s

module _ (cfg : Config) where
  -- The loop over the entries keeps the names that pass.
  unfoldable pub is_backup : Text → Bool
  unfolding base_name trim_suffix contains_byte
  is_backup name =
      let base = trim_suffix (base_name cfg.path) (ext cfg.path) in
      let plain =
        if text_eq (ext name) (codes ".gz") then trim_suffix name (codes ".gz") else name in
      starts_with name (base ++ b'.' ∷ [])
      && not (cfg.compress && not (ends_with name (codes ".gz")))
      && contains_byte b'.' plain

  -- `time.Duration(days) * 24 * time.Hour`
  unfoldable pub max_age : ℤ
  max_age = elim cfg.max_age_days [
    | pos n ↦ wrap_i64 (pos (n * 86400000000000))
    | negsuc n ↦ wrap_i64 (negsuc (n * 86400000000000 + 86399999999999))
  ]

-- The order of Go's strings.
unfoldable pub leb_text : Text → Text → Bool
leb_text [] t = true
leb_text (c ∷ s) [] = false
leb_text (c ∷ s) (d ∷ t) =
    let rest = leb_text s t in if ltb c d then true else if c == d then rest else false

unfoldable pub insert_descending : Text → List Text → List Text
insert_descending x [] = x ∷ []
insert_descending x (y ∷ ys) =
    let rest = insert_descending x ys in if leb_text y x then x ∷ y ∷ ys else y ∷ rest

unfoldable pub sort_descending : List Text → List Text
unfolding insert_descending
sort_descending [] = []
sort_descending (x ∷ xs) = insert_descending x (sort_descending xs)

module _ (cfg : Config) (age : Text → Option ℤ) where
  -- The loop over the sorted backups, from the index `i` on.
  unfoldable pub removals : ℕ → List Text → List Text
  unfolding max_age
  removals i [] = []
  removals i (name ∷ names) =
      let rest = removals (i + 1) names in
      if ltb_ℤ (pos 0) cfg.max_backups && leb (pos_part cfg.max_backups) i
      then name ∷ rest
      else if not (ltb_ℤ (pos 0) (max_age cfg))
      then rest
      else elim (age name) [
        | none ↦ rest
        | some old ↦ if ltb_ℤ (max_age cfg) old then name ∷ rest else rest
      ]

  unfoldable pub cleanup : List Text → List Text
  unfolding removals is_backup sort_descending
  cleanup entries =
      if not (ltb_ℤ (pos 0) (max_age cfg)) && not (ltb_ℤ (pos 0) cfg.max_backups)
      then []
      else removals 0 (sort_descending (filter (is_backup cfg) entries))
