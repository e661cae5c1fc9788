-- ===== src/Kafka/Producer.antt =====
-- internal/adapter/outbound/kafka/producer.go: the queue, the flusher and the retried write.
--
-- Parameters: `json.Marshal`, as `marshal`, and the outcomes of `WriteMessages` of kafka-go. The
-- flusher is one goroutine; a step of it is one choice of its `select`. `flushed` lists the batches
-- that were handed to `flushBatch`; `accepted` and `taken` the events that entered the queue and
-- left it, and `dropped` those that were turned away. The code does not hold these four.
pub mod Retry
pub mod Flush
pub mod Batches
pub mod Close
use dns_flow.Prelude.{
  ℕ, zero, suc, ◌+◌, Text, Bool, true, false, List, [], ◌∷◌, ◌++◌, Option, none, some, length, ltb,
  leb, if◌then◌else◌,
}
use dns_flow.Prelude.Int.{ℤ, pos, negsuc, ltb_ℤ, pos_part}
use dns_flow.Prelude.Outcome.{Outcome, returned, panicked}
use dns_flow.Domain.{DnsRawEvent}
use dns_flow.Kafka.Errors.{KafkaError, is_retriable}

pub record Config : Type 0 where
  pub brokers : List Text
  pub topic : Text
  pub batch_size : ℤ
  pub flush_interval : ℤ
  pub compression : Text
  pub retention_ms : Text

pub record Message : Type 0 where
  pub key : Text
  pub value : Text

abbrev pub queue_capacity : ℕ
queue_capacity = 100000

pub record Producer : Type 0 where
  pub queue : List DnsRawEvent
  pub done : Bool
  pub running : Bool
  pub messages : List Message
  pub flushed : List (List Message)
  pub accepted : List DnsRawEvent
  pub taken : List DnsRawEvent
  pub dropped : List DnsRawEvent

unfoldable pub new_producer : Producer
new_producer = record {
  queue = [];
  done = false;
  running = false;
  messages = [];
  flushed = [];
  accepted = [];
  taken = [];
  dropped = [];
}

-- `Write`; `Produce` is the same call. It returns nil on both branches.
unfoldable pub write : DnsRawEvent → Producer → Producer
write event p =
    if ltb (length p.queue) queue_capacity
    then record p { queue = p.queue ++ event ∷ []; accepted = p.accepted ++ event ∷ [] }
    else record p { dropped = p.dropped ++ event ∷ [] }

-- `startFlusher`: a negative capacity and an interval that is not positive panic.
unfoldable pub start_flusher : Config → Producer → Outcome Producer
start_flusher cfg p =
    if ltb_ℤ cfg.batch_size (pos 0)
    then panicked
    else if ltb_ℤ (pos 0) cfg.flush_interval
    then returned (record p { running = true; messages = [] })
    else panicked

-- The closure `flush`.
flush_messages : List Message → Producer → Producer
flush_messages [] p = p
flush_messages (m ∷ ms) p = record p { flushed = p.flushed ++ (m ∷ ms) ∷ []; messages = [] }

unfoldable pub flush : Producer → Producer
unfolding flush_messages
flush p = flush_messages p.messages p

-- A case of the flusher's `select`.
pub data Choice : Type 0 where
  stop receive tick : Choice

module _ (marshal : DnsRawEvent → Option Text) (batch_size : ℕ) where
  -- `case evt := <-p.queue`, with `rest` what the queue holds behind the event.
  unfoldable pub receive_event : DnsRawEvent → List DnsRawEvent → Producer → Producer
  receive_event event rest p = elim (marshal event) [
    | none ↦ record p { queue = rest; taken = p.taken ++ event ∷ [] }
    | some text ↦
        let p' = record p {
          queue = rest;
          taken = p.taken ++ event ∷ [];
          messages = p.messages ++ (record { key = event.dns.qname; value = text }) ∷ [];
        } in
        if leb batch_size (length p'.messages) then flush p' else p'
  ]

  from_queue : List DnsRawEvent → Producer → Option Producer
  from_queue [] p = none
  from_queue (event ∷ rest) p = some (receive_event event rest p)

  -- `none` where the case is not ready or the flusher has returned.
  unfoldable pub choose : Choice → Producer → Option Producer
  unfolding from_queue
  choose stop p =
      if p.running
      then (if p.done then some (record (flush p) { running = false }) else none)
      else none
  choose receive p = if p.running then from_queue p.queue p else none
  choose tick p = if p.running then some (flush p) else none

-- `Close`: closes `done`; the flusher's return is a later step.
unfoldable pub close_done : Producer → Producer
close_done p = record p { done = true }

-- What a `flushBatch` comes to: the last error, if any, and how many attempts it made.
pub record Flushed : Type 0 where
  pub error : Option KafkaError
  pub attempts : ℕ

-- The attempts that are left, from attempt number `attempt` on. `outcome` gives what
-- `WriteMessages` returns at each attempt.
unfoldable pub attempt_loop : (ℕ → Option KafkaError) → ℕ → ℕ → Option KafkaError → Flushed
attempt_loop outcome zero attempt err = record { error = err; attempts = attempt }
attempt_loop outcome (suc rounds) attempt err = elim (outcome attempt) [
  | none ↦ record { error = none; attempts = attempt + 1 }
  | some e ↦ elim (is_retriable e) [
    | true ↦ attempt_loop outcome rounds (attempt + 1) (some e)
    | false ↦ record { error = some e; attempts = attempt + 1 }
  ]
]

unfoldable pub flush_batch : (ℕ → Option KafkaError) → Flushed
unfolding attempt_loop
flush_batch outcome = attempt_loop outcome 3 0 none
