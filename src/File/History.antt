-- ===== src/File/History.antt =====
-- internal/adapter/outbound/file/writer.go: the lines that the active file and the backups hold.
use mathlib.Core.List.{flatten}
use dns_flow.Prelude.{
  ℕ, ◌+◌, ◌≡◌, refl, sym, ap, ◌∙◌, Text, Bool, Bool-cases, true, false, not, ◌&&◌, List, [], ◌∷◌,
  ◌++◌, append_assoc, append-nil, flatten_last, Option, none, some, All, All-append, inl, inr,
  if◌then◌else◌,
}
use dns_flow.Prelude.Int.{pos, ltb_ℤ}
use dns_flow.Prelude.Dict
use dns_flow.Prelude.Dict.{Dict, lookup-insert, lookup-delete}
use dns_flow.Domain.{DnsRawEvent}
use dns_flow.File.{
  Config, Writer, FileError, max_bytes, content, rotated, rotate, make_room, append_line,
  write_data, write,
}
use dns_flow.File.Sweep.{Directory, KeepsAll, sweeps, sweeps-KeepsAll}
use dns_flow.File.Backups.{
  Segment, texts, texts-append, faultless, IsStored, NewStamp, active-IsStored, content-found,
  insert-found, rotated-new, rotated-IsStored,
}

when_open :
    (P : Writer × Option FileError → Type 0) (b : Bool) (r r' : Writer × Option FileError)
    → b ≡ true
    → P r'
    → P (if not b then r else r')
when_open P true r r' on h = h
when_open P false r r' on h = cc

module _ (gzip : Text → Text) (cfg : Config) where
  -- The backups hold the segments, oldest first, and the active file what comes after them.
  pub record Holds (lines : Text) (segments : List Segment) (w : Writer) : Type 0 where
    pub on : w.is_open ≡ true
    pub backups : All (IsStored gzip cfg w.files) segments
    pub whole : flatten (texts segments) ++ content cfg.path w.files ≡ lines

  module _ (stamp : Text) where
    -- What is rotated away from a writer.
    abbrev pub segment_of : Writer → Segment
    segment_of w = record { stamp = stamp; text = content cfg.path w.files }

    rotate-Holds :
        (lines : Text) (segments : List Segment) (w : Writer)
        → Holds lines segments w
        → NewStamp gzip cfg stamp segments
        → Holds lines (segments ++ segment_of w ∷ []) (rotate gzip cfg stamp faultless w).0
    unfolding rotate
    rotate-Holds lines segments w h new =
        let after : Dict Text = rotated gzip cfg stamp faultless w.files in
        rw (h.on) (record {
          on = refl;
          backups =
              All-append _ segments (segment_of w ∷ [])
                (active-IsStored gzip cfg [] after segments
                  (rotated-IsStored gzip cfg stamp w.files segments new h.backups))
                (active-IsStored gzip cfg [] after (segment_of w ∷ [])
                  (rotated-new gzip cfg stamp w.files, tt));
          whole =
              rw
                (
                  texts-append segments (segment_of w ∷ []),
                  flatten_last (texts segments),
                  content-found gzip cfg cfg.path [] (Dict.insert cfg.path [] after)
                      (insert-found gzip cfg cfg.path [] after),
                  append-nil,
                )
                (h.whole);
        })

    append_line-Holds :
        (lines line : Text) (segments : List Segment) (w : Writer)
        → Holds lines segments w
        → Holds (lines ++ line) segments (append_line gzip cfg stamp faultless line w).0
          × ((append_line gzip cfg stamp faultless line w).1 ≡ none)
    unfolding append_line
    append_line-Holds lines line segments w h =
        let text : Text = content cfg.path w.files ++ line in
        rw (h.on) (
          record {
            on = refl;
            backups = active-IsStored gzip cfg text w.files segments h.backups;
            whole =
                rw
                  (content-found gzip cfg cfg.path text (Dict.insert cfg.path text w.files)
                    (insert-found gzip cfg cfg.path text w.files))
                  (sym (append_assoc (flatten (texts segments)) (content cfg.path w.files) line)
                    ∙ ap (λ (t : Text). t ++ line) h.whole);
          },
          refl,
        )

    -- The active file has reached the limit, where there is one.
    abbrev pub is_full : Writer → Bool
    is_full w = ltb_ℤ (pos 0) (max_bytes cfg) && not (ltb_ℤ (pos w.size) (max_bytes cfg))

    abbrev pub segments_after : List Segment → Writer → List Segment
    segments_after segments w = if is_full w then segments ++ segment_of w ∷ [] else segments

    make_room-Holds :
        (lines : Text) (segments : List Segment) (w : Writer)
        → Holds lines segments w
        → NewStamp gzip cfg stamp segments
        → Holds lines (segments_after segments w) (make_room gzip cfg stamp faultless w)
    unfolding make_room
    make_room-Holds lines segments w h new = elim (Bool-cases (is_full w)) [
      | inl full ↦ rw full (rotate-Holds lines segments w h new)
      | inr room ↦ rw room h
    ]

    write_data-Holds :
        (marshal : DnsRawEvent → Option Text) (event : DnsRawEvent) (text lines : Text)
        (segments : List Segment) (w : Writer)
        → marshal event ≡ some text
        → Holds lines segments w
        → NewStamp gzip cfg stamp segments
        → Holds
            (lines ++ (text ++ 10 ∷ []))
            (segments_after segments w)
            (write gzip cfg stamp marshal faultless event w).0
          × ((write gzip cfg stamp marshal faultless event w).1 ≡ none)
    unfolding write write_data
    write_data-Holds marshal event text lines segments w good h new =
        rw (good, write)
          (when_open
            (λ r. Holds (lines ++ (text ++ 10 ∷ [])) (segments_after segments w) r.0 × (r.1 ≡ none))
            w.is_open (w, none) _ h.on
            (append_line-Holds lines (text ++ 10 ∷ []) (segments_after segments w)
              (make_room gzip cfg stamp faultless w) (make_room-Holds lines segments w h new)))

    sweeps-Holds :
        (join : Text → Text) (dirs : List Directory) (lines : Text) (segments : List Segment)
        (w : Writer)
        → KeepsAll join cfg
        → Holds lines segments w
        → Holds lines segments (sweeps join cfg dirs w)
    sweeps-Holds join dirs lines segments w all h =
        let same = sweeps-KeepsAll join cfg dirs w all in
        record { on = same.1 ∙ h.on; backups = rw (same.0) h.backups; whole = rw (same.0) h.whole }

    -- The clean-ups that wait after `Write`: one more if there was a rotation.
    abbrev pub cleanups_after : Writer → ℕ
    cleanups_after w = if is_full w then w.cleanups + 1 else w.cleanups

    write-cleanups :
        (marshal : DnsRawEvent → Option Text) (event : DnsRawEvent) (text : Text) (w : Writer)
        → marshal event ≡ some text
        → w.is_open ≡ true
        → (write gzip cfg stamp marshal faultless event w).0.cleanups ≡ cleanups_after w
    unfolding write write_data append_line make_room rotate
    write-cleanups marshal event text w good on = elim (Bool-cases (is_full w)) [
      | inl full ↦ rw (good, write, on, full) refl
      | inr room ↦ rw (good, write, on, room) refl
    ]

    -- Where all calls of the operating system succeed and the configuration limits neither the age
    -- nor the number of the backups (both limits are 0 or negative), no line is lost: if the backups
    -- of the rotations so far, oldest first, and then the active file hold `lines`, the same holds of
    -- `lines` and the event's line after `Write` of an event that can be encoded and any runs of the
    -- clean-ups that were started, whatever they find in the directory; there is one more backup, of
    -- all that the active file held, and one more clean-up is started, exactly if the size had reached the limit, and `Write` returns
    -- nil. The time of `Write` must be none of the earlier rotations' times, and be written with as
    -- many bytes.
    pub write-Holds :
        (marshal : DnsRawEvent → Option Text) (event : DnsRawEvent) (text lines : Text)
        (segments : List Segment) (w : Writer) (join : Text → Text) (dirs : List Directory)
        → marshal event ≡ some text
        → KeepsAll join cfg
        → Holds lines segments w
        → NewStamp gzip cfg stamp segments
        → Holds
            (lines ++ (text ++ 10 ∷ []))
            (segments_after segments w)
            (sweeps join cfg dirs (write gzip cfg stamp marshal faultless event w).0)
          × ((write gzip cfg stamp marshal faultless event w).1 ≡ none)
          × ((write gzip cfg stamp marshal faultless event w).0.cleanups ≡ cleanups_after w)
    write-Holds marshal event text lines segments w join dirs good all h new =
        let wrote = write_data-Holds marshal event text lines segments w good h new in
        (
          sweeps-Holds join dirs (lines ++ (text ++ 10 ∷ [])) (segments_after segments w) _ all
              (wrote.0),
          wrote.1,
          write-cleanups marshal event text w good h.on,
        )
