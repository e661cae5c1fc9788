-- ===== src/File/Cleanup/Oldest.antt =====
-- internal/adapter/outbound/file/writer.go: which backups `cleanup` removes.
use mathlib.Core.List.{Perm}
use dns_flow.Prelude.{
  ℕ, zero, suc, ◌+◌, ◌≤◌, ◌≡◌, ◌↔◌, refl, ◌∙◌, sym, Text, Bool, Bool-cases, true, false, not, ◌&&◌,
  List, [], ◌∷◌, ◌++◌, Option, Option-cases, none, some, length, take, drop, take_whole, drop_whole,
  filter, leb, if◌then◌else◌, inl, inr, append-nil, arith,
}
use dns_flow.Prelude.Int.{ℤ, pos, pos_part, ltb_ℤ}
use dns_flow.File.{Config}
use dns_flow.File.Cleanup.{is_backup, max_age, sort_descending, removals, cleanup}
use dns_flow.File.Cleanup.Backup.{IsBackup, is_backup_iff}
use dns_flow.File.Cleanup.Sorted.{IsDescending, sort_descending-Sorts}

module _ (cfg : Config) (age : Text → Option ℤ) where
  abbrev older_than : Option ℤ → Bool
  older_than none = false
  older_than (some old) = ltb_ℤ (max_age cfg) old

  -- There is an age limit, the file's age is known, and it is above the limit.
  abbrev pub is_outdated : Text → Bool
  is_outdated name = if ltb_ℤ (pos 0) (max_age cfg) then older_than (age name) else false

  -- How many of a list of backups the configuration allows.
  abbrev pub allowed : List Text → ℕ
  allowed names = if ltb_ℤ (pos 0) cfg.max_backups then pos_part cfg.max_backups else length names

  abbrev limited : ℕ → Bool
  limited i = ltb_ℤ (pos 0) cfg.max_backups && leb (pos_part cfg.max_backups) i

  removals-step :
      (i : ℕ) (name : Text) (names : List Text)
      → removals cfg age i (name ∷ names) ≡ (
          if limited i
          then name ∷ removals cfg age (i + 1) names
          else if is_outdated name
          then name ∷ removals cfg age (i + 1) names
          else removals cfg age (i + 1) names)
  unfolding removals
  removals-step i name names = elim (Bool-cases (ltb_ℤ (pos 0) (max_age cfg))) [
    | inl on ↦ elim (Option-cases (age name)) [
      | inl unknown ↦ rw (on, unknown, removals) refl
      | inr (old, known) ↦ rw (on, known, removals) refl
    ]
    | inr off ↦ rw (off, removals) refl
  ]

  removals-unlimited :
      (i : ℕ) (names : List Text)
      → ltb_ℤ (pos 0) cfg.max_backups ≡ false
      → removals cfg age i names ≡ filter is_outdated names
  unfolding removals filter
  removals-unlimited i [] h = refl
  removals-unlimited i (name ∷ names) h =
      removals-step i name names ∙ rw (h, removals-unlimited (i + 1) names h) refl

  removals-past :
      (i : ℕ) (names : List Text)
      → ltb_ℤ (pos 0) cfg.max_backups ≡ true
      → pos_part cfg.max_backups ≤ i
      → removals cfg age i names ≡ names
  unfolding removals
  removals-past i [] on past = refl
  removals-past i (name ∷ names) on past =
      let past' : leb (pos_part cfg.max_backups) i ≡ true = ground arith in
      removals-step i name names
      ∙ rw (on, past', removals-past (i + 1) names on (omega (arith, past))) refl

  removals-limited :
      (i j : ℕ) (names : List Text)
      → ltb_ℤ (pos 0) cfg.max_backups ≡ true
      → i + j ≡ pos_part cfg.max_backups
      → removals cfg age i names ≡ filter is_outdated (take j names) ++ drop j names
  unfolding removals filter
  removals-limited i zero names on left = removals-past i names on (omega (arith, left))
  removals-limited i (suc j) [] on left = refl
  removals-limited i (suc j) (name ∷ names) on left =
      let within : leb (pos_part cfg.max_backups) i ≡ false = ground arith in
      removals-step i name names
      ∙ rw (on, within, removals-limited (i + 1) j names on (omega (arith, left)))
          (elim (Bool-cases (is_outdated name)) [
            | inl old ↦ rw old refl
            | inr fresh ↦ rw fresh refl
          ])

  removals-allowed :
      (names : List Text)
      → removals cfg age 0 names
        ≡ filter is_outdated (take (allowed names) names) ++ drop (allowed names) names
  removals-allowed names = elim (Bool-cases (ltb_ℤ (pos 0) cfg.max_backups)) [
    | inl on ↦ rw on (removals-limited 0 (pos_part cfg.max_backups) names on (omega arith))
    | inr off ↦
        rw (off, take_whole names, drop_whole names, append-nil) (removals-unlimited 0 names off)
  ]

  never_outdated :
      (names : List Text) → ltb_ℤ (pos 0) (max_age cfg) ≡ false → filter is_outdated names ≡ []
  unfolding filter
  never_outdated [] off = refl
  never_outdated (name ∷ names) off = rw off (never_outdated names off)

  idle :
      (aged on : Bool) (r wanted : List Text)
      → (aged ≡ false → on ≡ false → wanted ≡ [])
      → r ≡ wanted
      → (if not aged && not on then [] else r) ≡ wanted
  idle true on r wanted h e = e
  idle false true r wanted h e = e
  idle false false r wanted h e = sym (h refl refl)

  cleanup-allowed :
      (entries : List Text)
      → let names = sort_descending (filter (is_backup cfg) entries) in
        cleanup cfg age entries
        ≡ filter is_outdated (take (allowed names) names) ++ drop (allowed names) names
  unfolding cleanup
  cleanup-allowed entries =
      let names : List Text = sort_descending (filter (is_backup cfg) entries) in
      idle (ltb_ℤ (pos 0) (max_age cfg)) (ltb_ℤ (pos 0) cfg.max_backups) _ _
        (λ ageless off.
          rw (off, take_whole names, drop_whole names, append-nil) (never_outdated names ageless))
        (removals-allowed names)

  -- `cleanup` goes through the backups in the descending order of their names, `names`, each as
  -- often as in the directory. It removes all behind the first `max_backups`, where that is positive,
  -- and of the others exactly those that are too old, where there is an age limit. A name is a backup
  -- just when it starts with the active file's name without its extension and a dot, ends in ".gz"
  -- if Compress is set, and has a dot apart from this ending: without Compress the active file is
  -- among the backups, and takes one of the `max_backups` places.
  pub cleanup-Oldest :
      (entries : List Text) (name : Text)
      → (names : List Text) × IsDescending names
        × Perm names (filter (is_backup cfg) entries)
        × (cleanup cfg age entries
            ≡ filter is_outdated (take (allowed names) names) ++ drop (allowed names) names)
        × ((is_backup cfg name ≡ true) ↔ IsBackup cfg name)
  cleanup-Oldest entries name =
      let sorts = sort_descending-Sorts (filter (is_backup cfg) entries) in
      (
        sort_descending (filter (is_backup cfg) entries),
        sorts.0,
        sorts.1,
        cleanup-allowed entries,
        is_backup_iff cfg name,
      )
