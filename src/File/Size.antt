-- ===== src/File/Size.antt =====
-- internal/adapter/outbound/file/writer.go: the size that the writer keeps.
use dns_flow.Prelude.{
  ℕ, ◌+◌, ◌≤◌, take, length-take, ◌≡◌, refl, ap, ◌∙◌, Text, text_eq_refl, Bool, true, false, not,
  [], ◌∷◌, ◌++◌, Option, Option-cases, none, some, length, length-append, ◌⊎◌, inl, inr, arith,
  if◌then◌else◌,
}
use dns_flow.Prelude.Dict
use dns_flow.Prelude.Dict.{Dict, lookup-insert}
use dns_flow.Domain.{DnsRawEvent}
use dns_flow.File.{
  Config, Writer, Calls, FileError, write_failed, content, rotated, rotate, make_room, append_line,
  write_data, write,
}

module _ (gzip : Text → Text) (cfg : Config) (stamp : Text) where
  -- The writer is closed, or its size is that of the active file but for `lost` bytes.
  abbrev pub Sized : ℕ → Writer → Type 0
  Sized lost w = (w.is_open ≡ false) ⊎ (w.size + lost ≡ length (content cfg.path w.files))

  -- The size lags by no more than `bound` bytes.
  abbrev pub WithinLag : ℕ → Writer → Type 0
  WithinLag bound w = (lost : ℕ) × (lost ≤ bound) × Sized lost w

  branch-WithinLag :
      (bound : ℕ) (b : Bool) (r r' : Writer × Option FileError)
      → WithinLag bound r.0
      → WithinLag bound r'.0
      → WithinLag bound (if b then r else r').0
  branch-WithinLag bound true r r' h h' = h
  branch-WithinLag bound false r r' h h' = h'

  content-insert : (k v : Text) (m : Dict Text) → content k (Dict.insert k v m) ≡ v
  content-insert k v m =
      let found : Dict.lookup k (Dict.insert k v m) ≡ some v =
        lookup-insert k k v m ∙ rw (text_eq_refl k) refl in
      ap (λ (o : Option Text). elim o as (λ _. Text) [ none ↦ [] | some text ↦ text ]) found

  rotate-WithinLag :
      (bound : ℕ) (calls : Calls) (w : Writer)
      → WithinLag bound w
      → WithinLag bound (rotate gzip cfg stamp calls w).0
  unfolding rotate
  rotate-WithinLag bound calls w s = branch-WithinLag bound (not w.is_open) _ _ s (
      branch-WithinLag bound (not calls.closes) _ _ s (
        branch-WithinLag bound (not calls.renames) _ _ (0, omega arith, inl refl)
          (branch-WithinLag bound (not calls.opens) _ _ (0, omega arith, inl refl)
            (
              0,
              omega arith,
              inr (rw (content-insert cfg.path [] (rotated gzip cfg stamp calls w.files)) refl),
            ))))

  room-WithinLag :
      (bound : ℕ) (b : Bool) (calls : Calls) (w : Writer)
      → WithinLag bound w
      → WithinLag bound (if b then (rotate gzip cfg stamp calls w).0 else w)
  room-WithinLag bound true calls w s = rotate-WithinLag bound calls w s
  room-WithinLag bound false calls w s = s

  make_room-WithinLag :
      (bound : ℕ) (calls : Calls) (w : Writer)
      → WithinLag bound w
      → WithinLag bound (make_room gzip cfg stamp calls w)
  unfolding make_room
  make_room-WithinLag bound calls w s = room-WithinLag bound _ calls w s

  -- What a failed write of the file adds to the lag at most.
  abbrev pub unknown : Calls → ℕ
  unknown calls = if calls.writes then 0 else calls.partial

  appended-Sized :
      (bound : ℕ) (line : Text) (w : Writer)
      → WithinLag bound w
      → WithinLag bound (record w {
        size = w.size + length line;
        files = Dict.insert cfg.path (content cfg.path w.files ++ line) w.files;
      })
  appended-Sized bound line w (lost, few, inl closed) = (lost, few, inl closed)
  appended-Sized bound line w (lost, few, inr known) = (
    lost,
    few,
    inr (
        rw (content-insert cfg.path (content cfg.path w.files ++ line) w.files)
          (omega (arith, known, length-append {0} (content cfg.path w.files) line))),
  )

  torn-Sized :
      (bound n : ℕ) (line : Text) (w : Writer)
      → WithinLag bound w
      → WithinLag (bound + n) (record w {
        files = Dict.insert cfg.path (content cfg.path w.files ++ take n line) w.files;
      })
  torn-Sized bound n line w (lost, few, inl closed) = (0, omega arith, inl closed)
  torn-Sized bound n line w (lost, few, inr known) = (
    lost + length (take n line),
    omega (arith, few, length-take {0} n line),
    inr (
        rw (content-insert cfg.path (content cfg.path w.files ++ take n line) w.files)
          (omega (arith, known, length-append {0} (content cfg.path w.files) (take n line)))),
  )

  more-WithinLag : (bound n : ℕ) (w : Writer) → WithinLag bound w → WithinLag (bound + n) w
  more-WithinLag bound n w (lost, few, s) = (lost, omega (arith, few), s)

  written-WithinLag :
      (bound n : ℕ) (line : Text) (b : Bool) (w : Writer)
      → WithinLag bound w
      → let whole : Writer × Option FileError = (
        record w {
          size = w.size + length line;
          files = Dict.insert cfg.path (content cfg.path w.files ++ line) w.files;
        },
        none,
      ) in
        let torn : Writer × Option FileError = (
          record w {
            files = Dict.insert cfg.path (content cfg.path w.files ++ take n line) w.files;
          },
          some write_failed,
        ) in
        WithinLag (bound + (if b then 0 else n)) (if b then whole else torn).0
  written-WithinLag bound n line true w s =
      more-WithinLag bound 0
        (record w {
          size = w.size + length line;
          files = Dict.insert cfg.path (content cfg.path w.files ++ line) w.files;
        })
        (appended-Sized bound line w s)
  written-WithinLag bound n line false w s = torn-Sized bound n line w s

  append_line-WithinLag :
      (bound : ℕ) (calls : Calls) (line : Text) (w : Writer)
      → WithinLag bound w
      → WithinLag (bound + unknown calls) (append_line gzip cfg stamp calls line w).0
  unfolding append_line
  append_line-WithinLag bound calls line w s =
      branch-WithinLag (bound + unknown calls) (not w.is_open) _ _
        (more-WithinLag bound (unknown calls) w s)
        (written-WithinLag bound calls.partial line calls.writes w s)

  -- `Write` adds to the lag of the size behind the active file only in a write of the file that
  -- fails, and then no more than the bytes that it wrote: if the writer is closed or its size is the
  -- length of the file at its path less at most `bound` bytes, the same holds after `Write` of any
  -- event, with `bound` and those bytes, whatever other calls of the operating system fail in it,
  -- with or without a rotation. So the size never exceeds that length, and is equal to it (`bound`
  -- 0) as long as no write of the file fails.
  pub write-Sized :
      (marshal : DnsRawEvent → Option Text) (calls : Calls) (event : DnsRawEvent) (bound : ℕ)
      (w : Writer)
      → WithinLag bound w
      → WithinLag
          (bound + (if calls.writes then 0 else calls.partial))
          (write gzip cfg stamp marshal calls event w).0
  unfolding write write_data
  write-Sized marshal calls event bound w s =
      let same : WithinLag (bound + unknown calls) w = more-WithinLag bound (unknown calls) w s in
      elim (Option-cases (marshal event)) [
        | inl bad ↦ rw (bad, write) same
        | inr (text, good) ↦
            rw (good, write)
              (branch-WithinLag (bound + unknown calls) (not w.is_open) _ _ same (
                append_line-WithinLag bound calls (text ++ 10 ∷ [])
                  (make_room gzip cfg stamp calls w) (make_room-WithinLag bound calls w s)))
      ]
