-- ===== src/Tests/Passage.antt =====
-- Two events on their way from the Kafka producer to the ClickHouse writer.
use mathlib.Core.List.{flatten}
use dns_flow.Prelude.{
  ℕ, ◌≡◌, refl, codes, true, ◌==◌, Text, [], ◌∷◌, Option, none, some, inl, inr, arith,
  if◌then◌else◌,
}
use dns_flow.Domain.{DnsRawEvent}
use dns_flow.Kafka.Producer
use dns_flow.Kafka.Producer.{Producer, new_producer, receive, tick, receive_event, flush, choose}
use dns_flow.Kafka.Producer.Flush.{produce, select, Reach, here, next}
use dns_flow.Kafka.Consumer.{Loop, loop}
use dns_flow.Kafka.Consumer.Delivery.{encodable, reads_of}
use dns_flow.Clickhouse.Queue.{Writer, new_writer}
use dns_flow.Flow.{clickhouse_storage, Gains, loop-Gains}
use dns_flow.Tests.{query_event, other_event}

-- The query event can be encoded, and decodes to itself; the other one cannot.
abbrev marshal : DnsRawEvent → Option Text
marshal event = if event.dns.id == 4711 then some (codes "{}") else none

abbrev unmarshal : Text → Option DnsRawEvent
unmarshal text = some query_event

abbrev migrate : Writer → Writer × Option ℕ
migrate w = (w, none)

abbrev started : Producer
started = record new_producer { running = true }

abbrev both_queued : Producer
both_queued = Producer.write other_event (Producer.write query_event started)

abbrev both_taken : Producer
both_taken =
    receive_event marshal 2 other_event []
      (receive_event marshal 2 query_event (other_event ∷ []) both_queued)

abbrev drained : Producer
drained = flush both_taken

reaches_drained : Reach marshal 2 started drained
unfolding new_producer Producer.write receive_event choose flush
reaches_drained =
    next
      (next
        (next (next (next here (produce query_event)) (produce other_event)) (select receive refl))
        (select receive refl))
      (select tick refl)

abbrev idle_loop : Loop Writer ℕ
idle_loop = record {
  world = record new_writer { running = true };
  total = 0;
  running = true;
  read_errors = 0;
  unmarshal_errors = 0;
  write_errors = [];
  progress_logs = [];
}

loop-Gains_example :
    let storages = clickhouse_storage migrate ∷ [] in
    let done =
      loop unmarshal storages
        (reads_of marshal unmarshal storages (flatten drained.flushed))
        idle_loop in
    Gains marshal unmarshal migrate
      (encodable marshal unmarshal storages drained.accepted)
      idle_loop.world
      done.world
    × (done.unmarshal_errors ≡ 0)
unfolding new_producer new_writer Producer.write receive_event flush
loop-Gains_example =
    loop-Gains marshal unmarshal migrate 2 idle_loop reaches_drained refl refl
      (inr (codes "{}", refl, refl), (inl refl, tt)) (omega arith)
