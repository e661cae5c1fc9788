-- ===== src/Clickhouse/Batch.antt =====
-- internal/adapter/outbound/clickhouse/writer.go: `flushBatch`, its errors and what it has sent.
--
-- Parameters: what the driver answers to each call. `raw_ok` and `answer_ok` answer the calls of
-- `Append` by the number of rows that the batch holds; `clock` gives the time read for an event by
-- its place in the batch of events.
use dns_flow.Prelude.{
  ℕ, ◌+◌, Text, Bool, List, [], ◌∷◌, ◌++◌, Option, none, some, length, if◌then◌else◌, ◌⊎◌, inl, inr,
}
use dns_flow.Prelude.Int.{ℤ}
use dns_flow.Prelude.Dict.{Dict}
use dns_flow.Domain.{DnsRawEvent, Dnsrr, EdnsOption}
use dns_flow.Clickhouse.Rows.{Value, time_of, raw_row, answer_row}

pub data BatchError : Type 0 where
  prepare_raw prepare_answers append_raw append_answers send_raw send_answers : BatchError

pub record Driver : Type 0 where
  pub connected : Bool
  pub prepares_raw : Bool
  pub prepares_answers : Bool
  pub raw_ok : ℕ → Bool
  pub answer_ok : ℕ → Bool
  pub sends_raw : Bool
  pub sends_answers : Bool

pub record Batches : Type 0 where
  pub raw : List (List Value)
  pub answers : List (List Value)

-- The error, if any, and the rows that the database was sent.
pub record Sent : Type 0 where
  pub error : Option BatchError
  pub rows : Batches

abbrev pub no_rows : Batches
no_rows = record { raw = []; answers = [] }

abbrev pub append_error : Option Batches → BatchError ⊎ Batches
append_error none = inl append_answers
append_error (some b) = inr b

module _ (driver : Driver) (marshal : List EdnsOption → Option Text) (clock : ℕ → ℤ) where
  -- The two inner loops; `none` is the early return of a failed `Append`.
  unfoldable pub append_section : ℤ → DnsRawEvent → Text → List Dnsrr → Batches → Option Batches
  append_section ts event section [] b = some b
  append_section ts event section (rr ∷ rrs) b =
      let rest =
        append_section ts event section rrs
          (record b { answers = b.answers ++ answer_row ts event section rr ∷ [] }) in
      if driver.answer_ok (length b.answers) then rest else none

  unfoldable pub append_sections : ℤ → DnsRawEvent → Dict (List Dnsrr) → Batches → Option Batches
  append_sections ts event [] b = some b
  append_sections ts event ((section, rrs) ∷ rest) b =
      elim (append_section ts event section rrs b) [
        | none ↦ none
        | some b' ↦ append_sections ts event rest b'
      ]

  -- The body of the outer loop.
  unfoldable pub append_event : ℕ → DnsRawEvent → Batches → BatchError ⊎ Batches
  append_event i event b =
      let ts = time_of (clock i) event in
      if driver.raw_ok (length b.raw)
      then append_error (
          append_sections ts event event.dns.resource
            (record b { raw = b.raw ++ raw_row marshal ts event ∷ [] }))
      else inl append_raw

  unfoldable pub append_events : ℕ → List DnsRawEvent → Batches → BatchError ⊎ Batches
  append_events i [] b = inr b
  append_events i (event ∷ rest) b = elim (append_event i event b) [
    | inl e ↦ inl e
    | inr b' ↦ append_events (i + 1) rest b'
  ]

  abbrev pub send : Batches → Sent
  send b =
      if driver.sends_raw
      then (if driver.sends_answers
          then record { error = none; rows = b }
          else record { error = some send_answers; rows = record b { answers = [] } })
      else record { error = some send_raw; rows = no_rows }

  abbrev pub send_appended : BatchError ⊎ Batches → Sent
  send_appended (inl e) = record { error = some e; rows = no_rows }
  send_appended (inr b) = send b

  -- `flushBatch`: with no connection, or no events, it returns at once, with no error.
  unfoldable pub flush_batch : List DnsRawEvent → Sent
  unfolding append_events
  flush_batch [] = record { error = none; rows = no_rows }
  flush_batch (event ∷ rest) =
      if driver.connected
      then (if driver.prepares_raw
          then (if driver.prepares_answers
              then send_appended (append_events 0 (event ∷ rest) no_rows)
              else record { error = some prepare_answers; rows = no_rows })
          else record { error = some prepare_raw; rows = no_rows })
      else record { error = none; rows = no_rows }
