-- ===== src/Clickhouse/Outcomes.antt =====
-- internal/adapter/outbound/clickhouse/writer.go: the outcomes of `flushBatch`.
use dns_flow.Prelude.{
  ℕ, ◌+◌, Text, Bool, Bool-cases, true, false, List, [], ◌∷◌, ◌++◌, append_assoc, append-nil,
  Option, none, some, length, if◌then◌else◌, guarded_some, guarded_inr, chain_some, chain_inr, map,
  ◌⊎◌, inl, inr, ◌≡◌, ◌≢◌, ◌∙◌, sym, refl, arith,
}
use dns_flow.Prelude.Int.{ℤ}
use dns_flow.Prelude.Dict.{Dict}
use dns_flow.Domain.{DnsRawEvent, Dnsrr, EdnsOption}
use dns_flow.Clickhouse.Rows.{Value, time_of, raw_row, answer_row}
use dns_flow.Clickhouse.Batch.{
  BatchError, append_raw, prepare_raw, prepare_answers, send_answers, Driver, Batches, Sent,
  no_rows, append_section, append_sections, append_error, append_event, append_events, send,
  send_appended, flush_batch,
}

module _ (driver : Driver) (marshal : List EdnsOption → Option Text) (clock : ℕ → ℤ) where
  -- The rows of the events: a row for each, and an answer for each record of each section.
  abbrev pub raw_rows : ℕ → List DnsRawEvent → List (List Value)
  raw_rows i [] = []
  raw_rows i (event ∷ rest) =
      raw_row marshal (time_of (clock i) event) event ∷ raw_rows (i + 1) rest

  abbrev pub section_rows : ℤ → DnsRawEvent → Text → List Dnsrr → List (List Value)
  section_rows ts event section rrs = map (answer_row ts event section) rrs

  abbrev pub sections_rows : ℤ → DnsRawEvent → Dict (List Dnsrr) → List (List Value)
  sections_rows ts event [] = []
  sections_rows ts event ((section, rrs) ∷ rest) =
      section_rows ts event section rrs ++ sections_rows ts event rest

  abbrev pub answer_rows : ℕ → List DnsRawEvent → List (List Value)
  answer_rows i [] = []
  answer_rows i (event ∷ rest) =
      sections_rows (time_of (clock i) event) event event.dns.resource ++ answer_rows (i + 1) rest

  -- What appending leaves: the rows that were there, then those of the events.
  abbrev added : List (List Value) → List (List Value) → Batches → Batches
  added raws answers b = record { raw = b.raw ++ raws; answers = b.answers ++ answers }

  added_none : (b : Batches) → added [] [] b ≡ b
  added_none b = rw (append-nil b.raw, append-nil b.answers) refl

  append_section-rows :
      (ts : ℤ) (event : DnsRawEvent) (section : Text) (rrs : List Dnsrr) (b : Batches) {c : Batches}
      → append_section driver marshal clock ts event section rrs b ≡ some c
      → c ≡ added [] (section_rows ts event section rrs) b
  unfolding append_section
  append_section-rows ts event section [] b {c} h =
      let same : b ≡ c = cc in sym same ∙ sym (added_none b)
  append_section-rows ts event section (rr ∷ rrs) b h =
      append_section-rows ts event section rrs _
        (guarded_some (driver.answer_ok (length b.answers)) _ h).1
      ∙ rw append_assoc refl

  append_sections-rows :
      (ts : ℤ) (event : DnsRawEvent) (m : Dict (List Dnsrr)) (b : Batches) {c : Batches}
      → append_sections driver marshal clock ts event m b ≡ some c
      → c ≡ added [] (sections_rows ts event m) b
  unfolding append_sections
  append_sections-rows ts event [] b {c} h = let same : b ≡ c = cc in sym same ∙ sym (added_none b)
  append_sections-rows ts event ((section, rrs) ∷ rest) b {c} h =
      let (b', first, then_rest) =
        chain_some (append_section driver marshal clock ts event section rrs b) _ h in
      append_sections-rows ts event rest b' then_rest
      ∙ rw (append_section-rows ts event section rrs b first, append-nil, append-nil, append_assoc)
          refl

  append_error-inr : (x : Option Batches) {c : Batches} → append_error x ≡ inr c → x ≡ some c
  append_error-inr none h = cc
  append_error-inr (some b) h = cc

  append_event-rows :
      (i : ℕ) (event : DnsRawEvent) (b : Batches) {c : Batches}
      → append_event driver marshal clock i event b ≡ inr c
      → c
        ≡ added
            (raw_row marshal (time_of (clock i) event) event ∷ [])
            (sections_rows (time_of (clock i) event) event event.dns.resource)
            b
  unfolding append_event
  append_event-rows i event b {c} h =
      append_sections-rows _ event event.dns.resource _
        (append_error-inr _ (guarded_inr (driver.raw_ok (length b.raw)) _ append_raw h).1)
      ∙ rw append-nil refl

  append_events-rows :
      (i : ℕ) (events : List DnsRawEvent) (b : Batches) {c : Batches}
      → append_events driver marshal clock i events b ≡ inr c
      → c ≡ added (raw_rows i events) (answer_rows i events) b
  unfolding append_events
  append_events-rows i [] b {c} h = let same : b ≡ c = cc in sym same ∙ sym (added_none b)
  append_events-rows i (event ∷ rest) b {c} h =
      let (b', first, then_rest) = chain_inr (append_event driver marshal clock i event b) _ h in
      append_events-rows (i + 1) rest b' then_rest
      ∙ rw (append_event-rows i event b first, append_assoc, append_assoc) refl

  -- What a batch comes to: all its rows are sent, or the rows of `dns_raw` alone, with the error of
  -- the second `Send`, or an error and no row.
  abbrev pub Delivered : List DnsRawEvent → Sent → Type 0
  Delivered events s =
      ((s.error ≡ none)
        × (s.rows ≡ record { raw = raw_rows 0 events; answers = answer_rows 0 events }))
      ⊎ ((s.error ≡ some send_answers)
          × (s.rows ≡ record { raw = raw_rows 0 events; answers = [] }))
      ⊎ ((s.error ≢ none) × (s.rows ≡ no_rows))

  send-Delivered :
      (events : List DnsRawEvent) (b : Batches)
      → b ≡ record { raw = raw_rows 0 events; answers = answer_rows 0 events }
      → Delivered events (send driver marshal clock b)
  send-Delivered events b h = elim (Bool-cases driver.sends_raw) [
    | inl raw ↦ elim (Bool-cases driver.sends_answers) [
      | inl answers ↦ rw (raw, answers) (inl (refl, h))
      | inr lost ↦ rw (raw, lost) (inr (inl (refl, rw h refl)))
    ]
    | inr lost ↦ rw lost (inr (inr (ground arith, refl)))
  ]

  refused :
      (events : List DnsRawEvent) (e : BatchError)
      → Delivered events (record { error = some e; rows = no_rows })
  refused events e = inr (inr (ground arith, refl))

  send_appended-Delivered :
      (events : List DnsRawEvent) (x : BatchError ⊎ Batches)
      → append_events driver marshal clock 0 events no_rows ≡ x
      → Delivered events (send_appended driver marshal clock x)
  send_appended-Delivered events (inl e) h = refused events e
  send_appended-Delivered events (inr b) h =
      send-Delivered events b (append_events-rows 0 events no_rows h)

  either_way :
      (events : List DnsRawEvent) (b : Bool) (s t : Sent)
      → Delivered events s
      → Delivered events t
      → Delivered events (if b then s else t)
  either_way events true s t hs ht = hs
  either_way events false s t hs ht = ht

  connected_only :
      (events : List DnsRawEvent) (b : Bool) (s t : Sent)
      → b ≡ true
      → Delivered events s
      → Delivered events (if b then s else t)
  connected_only events true s t h hs = hs
  connected_only events false s t h hs = cc

  -- With a connection, `flushBatch` has one of three outcomes, whatever the driver answers to each
  -- call. It returns nil, and the database was sent exactly one row of `dns_raw` for each event and
  -- one row of `dns_answers` for each record of each section of each event, in order. Or the second
  -- `Send` failed, and it was sent the rows of `dns_raw` alone. Or it returns an error, and nothing
  -- was sent.
  pub flush_batch-Delivered :
      (events : List DnsRawEvent)
      → driver.connected ≡ true
      → Delivered events (flush_batch driver marshal clock events)
  unfolding flush_batch
  flush_batch-Delivered [] on = inl (refl, refl)
  flush_batch-Delivered (event ∷ rest) on = connected_only (event ∷ rest) driver.connected _ _ on (
      either_way (event ∷ rest) driver.prepares_raw _ _
        (either_way (event ∷ rest) driver.prepares_answers _ _
          (send_appended-Delivered (event ∷ rest) _ refl) (refused (event ∷ rest) prepare_answers))
        (refused (event ∷ rest) prepare_raw))
