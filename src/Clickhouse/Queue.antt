-- ===== src/Clickhouse/Queue.antt =====
-- internal/adapter/outbound/clickhouse/writer.go: the queue of the writer and its flusher.
--
-- Parameter: `json.Marshal` of the EDNS options. The flusher is one goroutine; a step of it is one
-- choice of its `select`, with what the driver and the clock answer to the flush, if there is one.
-- `batches` lists the batches handed to `flushBatch` and `failed` those for which it returned an
-- error; `rows` is what the database was sent; `accepted` lists the events that entered the queue
-- and `dropped` those that were turned away. The code does not hold these five.
pub mod Counts
pub mod Kept
use dns_flow.Prelude.{
  ℕ, ◌+◌, Text, Bool, true, false, List, [], ◌∷◌, ◌++◌, Option, none, some, length, ltb, leb,
  if◌then◌else◌,
}
use dns_flow.Prelude.Int.{ℤ}
use dns_flow.Domain.{DnsRawEvent, EdnsOption}
use dns_flow.Clickhouse.Batch.{Driver, Batches, Sent, no_rows, flush_batch}

abbrev pub queue_capacity : ℕ
queue_capacity = 100000

abbrev pub batch_limit : ℕ
batch_limit = 1000

pub record Writer : Type 0 where
  pub queue : List DnsRawEvent
  pub done : Bool
  pub running : Bool
  pub events : List DnsRawEvent
  pub batches : List (List DnsRawEvent)
  pub failed : List (List DnsRawEvent)
  pub rows : Batches
  pub accepted : List DnsRawEvent
  pub dropped : List DnsRawEvent

unfoldable pub new_writer : Writer
new_writer = record {
  queue = [];
  done = false;
  running = false;
  events = [];
  batches = [];
  failed = [];
  rows = no_rows;
  accepted = [];
  dropped = [];
}

-- `Write` returns nil on both branches.
unfoldable pub write : DnsRawEvent → Writer → Writer
write event w =
    if ltb (length w.queue) queue_capacity
    then record w { queue = w.queue ++ event ∷ []; accepted = w.accepted ++ event ∷ [] }
    else record w { dropped = w.dropped ++ event ∷ [] }

-- What the driver answers to the calls of a flush, and the times that are read in it.
pub record Answers : Type 0 where
  pub driver : Driver
  pub clock : ℕ → ℤ

-- A case of the flusher's `select`.
pub data Choice : Type 0 where
  stop receive tick : Choice

abbrev pub failed_after :
    Sent → List DnsRawEvent → List (List DnsRawEvent) → List (List DnsRawEvent)
failed_after s events failed = elim s.error [ none ↦ failed | some e ↦ failed ++ events ∷ [] ]

module _ (marshal : List EdnsOption → Option Text) where
  -- The closure `flush`: an error is only logged, and the events are cleared on every branch.
  unfoldable pub flush_events : Answers → List DnsRawEvent → Writer → Writer
  flush_events a [] w = w
  flush_events a (e ∷ es) w =
      let s = flush_batch a.driver marshal a.clock (e ∷ es) in
      record w {
        events = [];
        batches = w.batches ++ (e ∷ es) ∷ [];
        failed = failed_after s (e ∷ es) w.failed;
        rows = record {
          raw = w.rows.raw ++ s.rows.raw;
          answers = w.rows.answers ++ s.rows.answers;
        };
      }

  unfoldable pub flush : Answers → Writer → Writer
  unfolding flush_events
  flush a w = flush_events a w.events w

  -- `case evt := <-w.queue`, with `rest` what the queue holds behind the event.
  unfoldable pub receive_event : Answers → DnsRawEvent → List DnsRawEvent → Writer → Writer
  receive_event a event rest w =
      let w' = record w { queue = rest; events = w.events ++ event ∷ [] } in
      if leb batch_limit (length w'.events) then flush a w' else w'

  unfoldable pub from_queue : Answers → List DnsRawEvent → Writer → Option Writer
  from_queue a [] w = none
  from_queue a (event ∷ rest) w = some (receive_event a event rest w)

  -- `none` where the case is not ready or the flusher has returned.
  unfoldable pub choose : Choice → Answers → Writer → Option Writer
  unfolding from_queue
  choose stop a w =
      if w.running
      then (if w.done then some (record (flush a w) { running = false }) else none)
      else none
  choose receive a w = if w.running then from_queue a w.queue w else none
  choose tick a w = if w.running then some (flush a w) else none

-- `Close`: closes `done`; the flusher's return is a later step.
unfoldable pub close_done : Writer → Writer
close_done w = record w { done = true }
