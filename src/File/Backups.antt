-- ===== src/File/Backups.antt =====
-- internal/adapter/outbound/file/writer.go: the files after a rotation.
use mathlib.Core.List.{append_cancel_right}
use dns_flow.Prelude.{
  ◌≡◌, ◌≢◌, refl, sym, ap, ◌∙◌, Text, codes, text_eq, text_eq_refl, Bool-cases, true, false, List,
  [], ◌∷◌, ◌++◌, length, length-append, Option, none, some, All, inl, inr, arith, if◌then◌else◌,
}
use dns_flow.Prelude.Dict
use dns_flow.Prelude.Dict.{Dict, lookup-insert, lookup-delete}
use dns_flow.File.{Config, Calls, backup_path, content, gzip_file, rotated}
use dns_flow.File.Paths.{length-backup_path, backup_path-injective, differ, differ_by}

-- A file that was rotated away: the time of its rotation and its text.
pub record Segment : Type 0 where
  pub stamp : Text
  pub text : Text

abbrev pub texts : List Segment → List Text
texts [] = []
texts (s ∷ segments) = s.text ∷ texts segments

pub texts-append : (xs ys : List Segment) → texts (xs ++ ys) ≡ texts xs ++ texts ys
texts-append [] ys = refl
texts-append (x ∷ xs) ys = ap (◌∷◌ x.text) (texts-append xs ys)

-- All calls of the operating system succeed.
abbrev pub faultless : Calls
faultless = record {
  closes = true;
  renames = true;
  compresses = true;
  opens = true;
  writes = true;
  partial = 0;
}

module _ (gzip : Text → Text) (cfg : Config) where
  -- Where the backup of a segment is, and what it holds.
  abbrev pub stored_path : Text → Text
  stored_path stamp =
      if cfg.compress then backup_path cfg.path stamp ++ codes ".gz" else backup_path cfg.path stamp

  abbrev pub stored : Text → Text
  stored text = if cfg.compress then gzip text else text

  abbrev pub IsStored : Dict Text → Segment → Type 0
  IsStored files s = Dict.lookup (stored_path s.stamp) files ≡ some (stored s.text)

  -- A time that no earlier rotation had, of the length that they all have.
  abbrev pub NewStamp : Text → List Segment → Type 0
  NewStamp stamp segments = All (λ s. (s.stamp ≢ stamp) × (length s.stamp ≡ length stamp)) segments

  -- No backup is the active file.
  stored_path-active : (stamp : Text) → text_eq cfg.path (stored_path stamp) ≡ false
  stored_path-active stamp =
      let long = length-backup_path cfg.path stamp in
      elim (Bool-cases cfg.compress) [
        | inl on ↦ rw on (
            differ _ _
              (omega (arith, long, length-append {0} (backup_path cfg.path stamp) (codes ".gz"))))
        | inr off ↦ rw off (differ _ _ (omega (arith, long)))
      ]

  pub active-IsStored :
      (text : Text) (files : Dict Text) (segments : List Segment)
      → All (IsStored files) segments
      → All (IsStored (Dict.insert cfg.path text files)) segments
  active-IsStored text files [] h = tt
  active-IsStored text files (s ∷ segments) (h, hs) = (
    lookup-insert cfg.path (stored_path s.stamp) text files ∙ rw (stored_path-active s.stamp) h,
    active-IsStored text files segments hs,
  )

  pub content-found :
      (k v : Text) (files : Dict Text) → Dict.lookup k files ≡ some v → content k files ≡ v
  content-found k v files h =
      ap (λ (o : Option Text). elim o as (λ _. Text) [ none ↦ [] | some text ↦ text ]) h

  pub insert-found :
      (k v : Text) (files : Dict Text) → Dict.lookup k (Dict.insert k v files) ≡ some v
  insert-found k v files = lookup-insert k k v files ∙ rw (text_eq_refl k) refl

  module _ (stamp : Text) (files : Dict Text) where
    abbrev backup : Text
    backup = backup_path cfg.path stamp

    abbrev renamed : Dict Text
    renamed = Dict.insert backup (content cfg.path files) (Dict.delete cfg.path files)

    renamed-other :
        (k : Text)
        → text_eq cfg.path k ≡ false
        → text_eq backup k ≡ false
        → Dict.lookup k renamed ≡ Dict.lookup k files
    renamed-other k active other =
        lookup-insert backup k (content cfg.path files) (Dict.delete cfg.path files)
        ∙ rw other (lookup-delete cfg.path k files ∙ rw active refl)

    gzipped-other :
        (k v : Text)
        → text_eq cfg.path k ≡ false
        → text_eq backup k ≡ false
        → text_eq (backup ++ codes ".gz") k ≡ false
        → Dict.lookup k (Dict.delete backup (Dict.insert (backup ++ codes ".gz") v renamed))
          ≡ Dict.lookup k files
    gzipped-other k v active other zipped =
        lookup-delete backup k (Dict.insert (backup ++ codes ".gz") v renamed)
        ∙ rw other (
            lookup-insert (backup ++ codes ".gz") k v renamed
            ∙ rw zipped (renamed-other k active other))

    rotated-other :
        (k : Text)
        → text_eq cfg.path k ≡ false
        → text_eq backup k ≡ false
        → text_eq (backup ++ codes ".gz") k ≡ false
        → Dict.lookup k (rotated gzip cfg stamp faultless files) ≡ Dict.lookup k files
    unfolding rotated gzip_file
    rotated-other k active other zipped = elim (Bool-cases cfg.compress) [
      | inl on ↦ rw on (gzipped-other k _ active other zipped)
      | inr off ↦ rw off (renamed-other k active other)
    ]

    backup-zipped : text_eq backup (backup ++ codes ".gz") ≡ false
    backup-zipped = differ _ _ (omega (arith, length-append {0} backup (codes ".gz")))

    pub rotated-new :
        IsStored
          (rotated gzip cfg stamp faultless files)
          (record { stamp = stamp; text = content cfg.path files })
    unfolding rotated gzip_file
    rotated-new = elim (Bool-cases cfg.compress) [
      | inl on ↦ rw on (
          lookup-delete backup (backup ++ codes ".gz") _
          ∙ rw backup-zipped (
              insert-found (backup ++ codes ".gz") _ renamed
              ∙ ap (λ t. some (gzip t)) (content-found backup _ renamed (insert-found backup _ _))))
      | inr off ↦ rw off (insert-found backup _ _)
    ]

    old_backup :
        (s : Segment)
        → s.stamp ≢ stamp
        → length s.stamp ≡ length stamp
        → (text_eq backup (stored_path s.stamp) ≡ false)
          × (text_eq (backup ++ codes ".gz") (stored_path s.stamp) ≡ false)
    old_backup s new same =
        let old : Text = backup_path cfg.path s.stamp in
        let long = length-backup_path cfg.path stamp in
        let old_long = length-backup_path cfg.path s.stamp in
        let fresh : old ≢ backup = λ e. new (backup_path-injective cfg.path s.stamp stamp e) in
        elim (Bool-cases cfg.compress) [
          | inl on ↦ rw on (
            differ backup (old ++ codes ".gz") (omega (arith, length-append {0} old (codes ".gz"))),
            differ_by (backup ++ codes ".gz") (old ++ codes ".gz")
                (λ e. fresh (sym (append_cancel_right backup old (codes ".gz") e))),
          )
          | inr off ↦ rw off (
            differ_by backup old (λ e. fresh (sym e)),
            differ (backup ++ codes ".gz") old
                (omega (arith, length-append {0} backup (codes ".gz"))),
          )
        ]

    pub rotated-IsStored :
        (segments : List Segment)
        → NewStamp stamp segments
        → All (IsStored files) segments
        → All (IsStored (rotated gzip cfg stamp faultless files)) segments
    rotated-IsStored [] new h = tt
    rotated-IsStored (s ∷ segments) ((other, same), new) (h, hs) =
        let old = old_backup s other same in
        (
          rotated-other (stored_path s.stamp) (stored_path-active s.stamp) old.0 old.1 ∙ h,
          rotated-IsStored segments new hs,
        )
