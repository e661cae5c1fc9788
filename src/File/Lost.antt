-- ===== src/File/Lost.antt =====
-- internal/adapter/outbound/file/writer.go: the writer after a rotation that failed.
use dns_flow.Prelude.{
  ◌≡◌, refl, Text, true, false, List, [], ◌∷◌, Option, Option-cases, none, some, ◌⊎◌, inl, inr,
}
use dns_flow.Domain.{DnsRawEvent}
use dns_flow.File.{Config, Writer, Calls, rename_failed, rotate, write_data, write}

module _ (gzip : Text → Text) (cfg : Config) (marshal : DnsRawEvent → Option Text) where
  -- Later calls of `Write`, each at its time and with its own calls of the operating system.
  unfoldable pub write_later : List (Text × Calls × DnsRawEvent) → Writer → Writer
  write_later [] w = w
  write_later ((stamp, calls, event) ∷ rest) w =
      write_later rest (write gzip cfg stamp marshal calls event w).0

  -- A closed writer.
  write-closed :
      (stamp : Text) (calls : Calls) (event : DnsRawEvent) (w : Writer)
      → w.is_open ≡ false
      → ((write gzip cfg stamp marshal calls event w).0 ≡ w)
        × ((marshal event ≡ none) ⊎ ((write gzip cfg stamp marshal calls event w).1 ≡ none))
  unfolding write write_data
  write-closed stamp calls event w h = elim (Option-cases (marshal event)) [
    | inl bad ↦ (rw (bad, write) refl, inl bad)
    | inr (text, good) ↦ (rw (good, write, h) refl, inr (rw (good, write, h) refl))
  ]

  write_later-closed :
      (later : List (Text × Calls × DnsRawEvent)) (w : Writer)
      → w.is_open ≡ false
      → write_later later w ≡ w
  unfolding write_later
  write_later-closed [] w h = refl
  write_later-closed ((stamp, calls, event) ∷ rest) w h =
      rw ((write-closed stamp calls event w h).0) (write_later-closed rest w h)

  -- After a rotation of an open writer whose rename fails, the writer never writes again: any later
  -- calls of `Write` leave the files as they are, and the next one returns nil unless the event
  -- cannot be encoded, even if all calls of the operating system succeed from then on.
  pub rotate-write_later :
      (stamp : Text) (calls : Calls) (w : Writer) (later : List (Text × Calls × DnsRawEvent))
      (next_stamp : Text) (next_calls : Calls) (event : DnsRawEvent)
      → w.is_open ≡ true
      → calls.closes ≡ true
      → calls.renames ≡ false
      → let failed = rotate gzip cfg stamp calls w in
        (failed.1 ≡ some rename_failed)
        × ((write_later later failed.0).files ≡ w.files)
        × ((marshal event ≡ none)
            ⊎ ((write gzip cfg next_stamp marshal next_calls event (write_later later failed.0)).1
                ≡ none))
  unfolding rotate
  rotate-write_later stamp calls w later next_stamp next_calls event on closes fails =
      let lost : Writer = record w { is_open = false } in
      rw (on, closes, fails, write_later-closed later lost refl)
        (refl, refl, (write-closed next_stamp next_calls event lost refl).1)
