-- ===== src/File.antt =====
-- internal/adapter/outbound/file/writer.go: the active file, its rotation and its backups.
--
-- Files are a map from paths to contents. Parameters: `json.Marshal`, gzip, and for each call of
-- the operating system whether it succeeds; `stamp` is the formatted time. A write that fails may
-- have written a part of the line. A compression that fails leaves no file behind.
pub mod Size
pub mod Lost
pub mod Paths
pub mod Backups
pub mod History
pub mod Cleanup
pub mod Sweep
use mathlib.Core.List.{reverse}
use dns_flow.Prelude.{
  ℕ, ◌+◌, ◌-◌, ◌*◌, Text, codes, Bool, true, false, not, ◌&&◌, List, [], ◌∷◌, ◌++◌, ◌==◌, Option,
  none, some, length, take, if◌then◌else◌,
}
use dns_flow.Prelude.Int.{ℤ, pos, negsuc, ltb_ℤ, wrap_i64}
use dns_flow.Prelude.Dict
use dns_flow.Prelude.Dict.{Dict}
use dns_flow.Domain.{DnsRawEvent}

pub record Config : Type 0 where
  pub path : Text
  pub max_size_mb : ℤ
  pub max_age_days : ℤ
  pub max_backups : ℤ
  pub compress : Bool

-- `is_open` says that `file` is not nil. It is always the file at the path. `cleanups` counts the
-- goroutines of `cleanup` that were started and did not run yet.
pub record Writer : Type 0 where
  pub is_open : Bool
  pub size : ℕ
  pub files : Dict Text
  pub cleanups : ℕ

-- Which calls succeed: those of one `Write`, with its rotation. A write of the file that fails has
-- written the first `partial` bytes.
pub record Calls : Type 0 where
  pub closes : Bool
  pub renames : Bool
  pub compresses : Bool
  pub opens : Bool
  pub writes : Bool
  pub partial : ℕ

pub data FileError : Type 0 where
  marshal_failed mkdir_failed close_failed rename_failed open_failed write_failed : FileError

-- The suffix of `filepath.Ext`, of a reversed path.
unfoldable pub ext_from : Text → Text → Text
ext_from [] suffix = []
ext_from (c ∷ s) suffix =
    let rest = ext_from s (c ∷ suffix) in
    if c == b'/' then [] else if c == b'.' then c ∷ suffix else rest

unfoldable pub ext : Text → Text
ext path = ext_from (reverse path) []

unfoldable pub backup_path : Text → Text → Text
backup_path path stamp =
    let base = take (length path - length (ext path)) path in base ++ b'.' ∷ stamp ++ ext path

unfoldable pub max_bytes : Config → ℤ
max_bytes cfg = elim cfg.max_size_mb [
  | pos n ↦ wrap_i64 (pos (n * 1048576))
  | negsuc n ↦ wrap_i64 (negsuc (n * 1048576 + 1048575))
]

abbrev pub content : Text → Dict Text → Text
content path files = elim (Dict.lookup path files) [ none ↦ [] | some text ↦ text ]

module _ (gzip : Text → Text) (cfg : Config) (stamp : Text) where
  -- `gzipFile`, whose failures are only logged.
  unfoldable pub gzip_file : Calls → Text → Dict Text → Dict Text
  gzip_file calls backup files =
      if cfg.compress && calls.compresses
      then Dict.delete backup
          (Dict.insert (backup ++ codes ".gz") (gzip (content backup files)) files)
      else files

  -- The files after the active one was renamed and a new one was opened.
  unfoldable pub rotated : Calls → Dict Text → Dict Text
  rotated calls files =
      let backup = backup_path cfg.path stamp in
      let files = Dict.insert backup (content cfg.path files) (Dict.delete cfg.path files) in
      gzip_file calls backup files

  unfoldable pub rotate : Calls → Writer → Writer × Option FileError
  rotate calls w =
      if not w.is_open
      then (w, none)
      else if not calls.closes
      then (w, some close_failed)
      else if not calls.renames
      then (record w { is_open = false }, some rename_failed)
      else if not calls.opens
      then (record w { is_open = false; files = rotated calls w.files }, some open_failed)
      else (
        record {
          is_open = true;
          size = 0;
          files = Dict.insert cfg.path [] (rotated calls w.files);
          cleanups = w.cleanups + 1;
        },
        none,
      )

  -- The rotation at the start of `Write`, whose error is only logged.
  unfoldable pub make_room : Calls → Writer → Writer
  make_room calls w =
      let limit = max_bytes cfg in
      if ltb_ℤ (pos 0) limit && not (ltb_ℤ (pos w.size) limit) then (rotate calls w).0 else w

  -- A write to the nil file is an error. One that fails leaves the size as it is.
  unfoldable pub append_line : Calls → Text → Writer → Writer × Option FileError
  append_line calls line w =
      let held = content cfg.path w.files in
      if not w.is_open
      then (w, some write_failed)
      else if calls.writes
      then (
        record w {
          size = w.size + length line;
          files = Dict.insert cfg.path (held ++ line) w.files;
        },
        none,
      )
      else (
        record w { files = Dict.insert cfg.path (held ++ take calls.partial line) w.files },
        some write_failed,
      )

  unfoldable pub write_data : Calls → Text → Writer → Writer × Option FileError
  write_data calls data_text w =
      if not w.is_open
      then (w, none)
      else append_line calls (data_text ++ 10 ∷ []) (make_room calls w)

  unfoldable pub write :
      (DnsRawEvent → Option Text) → Calls → DnsRawEvent → Writer → Writer × Option FileError
  write marshal calls event w = elim (marshal event) [
    | none ↦ (w, some marshal_failed)
    | some text ↦ write_data calls text w
  ]

-- What the calls of `Migrate` answer.
pub record Setup : Type 0 where
  pub dir_missing : Bool
  pub makes_dir : Bool
  pub opens : Bool
  pub stats : Bool

-- Opening creates the file where it is missing. With no answer about its size the size stays.
unfoldable pub migrate : Config → Setup → Writer → Writer × Option FileError
migrate cfg setup w =
    let size = if setup.stats then length (content cfg.path w.files) else w.size in
    if setup.dir_missing && not setup.makes_dir
    then (w, some mkdir_failed)
    else if not setup.opens
    then (w, some open_failed)
    else (
      record {
        is_open = true;
        size = size;
        files = Dict.insert cfg.path (content cfg.path w.files) w.files;
        cleanups = w.cleanups;
      },
      none,
    )

-- `Close`, on its first call: a second one panics, for the channel `done` is closed.
unfoldable pub close : Writer → Writer
close w = record w { is_open = false }
