-- ===== src/Tests/Kafka.antt =====
-- The Kafka adapters: a topic that appears late, retried writes, batches, and a shutdown.
use mathlib.Core.List.{flatten}
use dns_flow.Prelude.{
  ℕ, ◌+◌, ◌≡◌, ◌↔◌, ◌⊎◌, inl, inr, refl, codes, true, false, ◌==◌, Text, List, [], ◌∷◌, ◌++◌,
  length, Option, none, some, if◌then◌else◌,
}
use dns_flow.Domain.{DnsRawEvent}
use dns_flow.Kafka.Errors.{
  KafkaError, request_timed_out, other, write_errors, written, failed, end, is_retriable,
  IsTransient, is_retriable_iff,
}
use dns_flow.Kafka.Producer.{Producer, new_producer, flush, flush_batch, stop, choose, write}
use dns_flow.Kafka.Producer.Retry.{Retried, flush_batch-Retried}
use dns_flow.Kafka.Producer.Flush.{produce, Reach, here, next, Ordered, encode}
use dns_flow.Kafka.Producer.Batches.{Reach-Ordered}
use dns_flow.Kafka.Producer.Close.{Abandons, stop-Abandons}
use dns_flow.Kafka.Topic.{Broker, topic_found, answers, ensure_topic}
use dns_flow.Kafka.Topic.Polls.{ReadyWithin, ensure_topic_iff}
use dns_flow.Kafka.Consumer.{Loop, loop}
use dns_flow.Kafka.Consumer.Delivery.{encodable, write_all, reads_of, loop-encode}
use dns_flow.Tests.{query_event, other_event, name_storage}

abbrev partial : KafkaError
partial = write_errors (written (failed request_timed_out end))

is_retriable_iff_example : (is_retriable partial ≡ true) ↔ IsTransient partial
is_retriable_iff_example = is_retriable_iff partial

-- The first attempt times out, the second meets an error for good.
abbrev two_attempts : ℕ → Option KafkaError
two_attempts n = if n == 0 then some request_timed_out else some (other (codes "broken pipe"))

flush_batch-Retried_example : Retried two_attempts 0 3 (flush_batch two_attempts)
flush_batch-Retried_example = flush_batch-Retried two_attempts

-- The topic is not there at first, and appears in the third answer.
abbrev late_topic : Broker ℕ
late_topic = record {
  metadata =
      λ n. if n == 2 then some (record { name = codes "dns"; has_error = false } ∷ []) else some [];
  create = none;
  alter = none;
}

ensure_topic_iff_example : (ensure_topic late_topic (codes "dns") ≡ none) ↔ (
    (answers (topic_found (codes "dns")) (late_topic.metadata 0) ≡ true)
    ⊎ ((late_topic.create ≡ none) × ReadyWithin late_topic (codes "dns") 1 10))
ensure_topic_iff_example = ensure_topic_iff late_topic (codes "dns")

-- An encoding of the two sample events, told apart by their ids.
abbrev marshal : DnsRawEvent → Option Text
marshal event = some (event.dns.id ∷ [])

abbrev waiting : Producer
waiting = record new_producer {
  running = true;
  queue = query_event ∷ [];
  accepted = query_event ∷ [];
}

abbrev closed : Producer
closed = record waiting { done = true }

enqueue : Reach marshal 2 (record new_producer { running = true }) waiting
unfolding new_producer write
enqueue = next here (produce query_event)

Reach-Ordered_example : Ordered marshal 2 waiting
Reach-Ordered_example = Reach-Ordered marshal 2 enqueue

stop-Abandons_example :
    (choose marshal 2 stop closed ≡ some (record (flush closed) { running = false }))
    × (flatten (flush closed).flushed ≡ flatten closed.flushed ++ closed.messages)
    × ((flush closed).queue ≡ closed.queue)
    × Abandons marshal 2
        (record (flush closed) { running = false })
        (record (flush closed) { running = false })
unfolding new_producer
stop-Abandons_example = stop-Abandons marshal 2 closed refl refl here

-- The query event can be encoded, and decodes to itself; the other one cannot.
abbrev marshal_query : DnsRawEvent → Option Text
marshal_query event = if event.dns.id == 4711 then some (codes "{}") else none

abbrev unmarshal_query : Text → Option DnsRawEvent
unmarshal_query text = some query_event

abbrev idle_loop : Loop (List Text) ℕ
idle_loop = record {
  world = [];
  total = 0;
  running = true;
  read_errors = 0;
  unmarshal_errors = 0;
  write_errors = [];
  progress_logs = [];
}

abbrev sent : List DnsRawEvent
sent = query_event ∷ other_event ∷ []

loop-encode_example :
    let done =
      loop unmarshal_query
        (name_storage ∷ [])
        (reads_of marshal_query unmarshal_query (name_storage ∷ []) (encode marshal_query sent))
        idle_loop in
    (done.world
      ≡ write_all marshal_query unmarshal_query
          (name_storage ∷ [])
          (encodable marshal_query unmarshal_query (name_storage ∷ []) sent)
          [])
    × (done.total ≡ 0 + length (encodable marshal_query unmarshal_query (name_storage ∷ []) sent))
    × (done.unmarshal_errors ≡ 0)
    × (done.running ≡ true)
loop-encode_example =
    loop-encode marshal_query unmarshal_query (name_storage ∷ []) sent idle_loop
      (inr (codes "{}", refl, refl), (inl refl, tt))
