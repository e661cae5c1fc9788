-- ===== src/Kafka/Producer/Batches.antt =====
-- internal/adapter/outbound/kafka/producer.go: the states that a producer reaches from its start.
use mathlib.Core.List.{flatten}
use dns_flow.Prelude.{
  ℕ, ◌≡◌, refl, subst, Text, true, false, Option, some, List, [], ◌∷◌, guarded_some, arith,
}
use dns_flow.Kafka.Producer.Flush.{
  Step, produce, close, select, Reach, here, next, encode, Ordered, flush-Below, weaken,
  receive_event-Below, write-Below,
}
use dns_flow.Domain.{DnsRawEvent}
use dns_flow.Kafka.Producer.{
  Producer, new_producer, flush, Choice, stop, receive, tick, receive_event, from_queue, choose,
  close_done,
}

module _ (marshal : DnsRawEvent → Option Text) (batch_size : ℕ) where
  stop_only :
      (p : Producer) {q : Producer}
      → choose marshal batch_size stop p ≡ some q
      → q ≡ record (flush p) { running = false }
  unfolding choose
  stop_only p h = ground arith

  tick_only :
      (p : Producer) {q : Producer} → choose marshal batch_size tick p ≡ some q → q ≡ flush p
  unfolding choose
  tick_only p h = ground arith

  from_queue-Below :
      (l : List DnsRawEvent) (p : Producer) {q : Producer}
      → p.queue ≡ l
      → from_queue marshal batch_size l p ≡ some q
      → Ordered marshal batch_size p
      → Ordered marshal batch_size q
  unfolding from_queue
  from_queue-Below [] p e h o = cc
  from_queue-Below (event ∷ rest) p {q} e h o =
      let same : receive_event marshal batch_size event rest p ≡ q = cc in
      subst (Ordered marshal batch_size) same
        (receive_event-Below marshal batch_size event rest p e o)

  receive_only :
      (p : Producer) {q : Producer}
      → choose marshal batch_size receive p ≡ some q
      → from_queue marshal batch_size p.queue p ≡ some q
  unfolding choose
  receive_only p h = (guarded_some p.running (from_queue marshal batch_size p.queue p) h).1

  choose-Below :
      (c : Choice) (p : Producer) {q : Producer}
      → choose marshal batch_size c p ≡ some q
      → Ordered marshal batch_size p
      → Ordered marshal batch_size q
  choose-Below stop p h o =
      let f = flush-Below marshal batch_size p (weaken marshal batch_size p o) in
      rw (stop_only p h) (record {
        in_order = f.in_order;
        batched = f.batched;
        queued = f.queued;
        pending = f.pending;
        sizes = f.sizes;
      })
  choose-Below receive p h o = from_queue-Below p.queue p refl (receive_only p h) o
  choose-Below tick p h o =
      rw (tick_only p h) (flush-Below marshal batch_size p (weaken marshal batch_size p o))

  Step-Below :
      {p q : Producer}
      → Step marshal batch_size p q
      → Ordered marshal batch_size p
      → Ordered marshal batch_size q
  unfolding close_done
  Step-Below {p} (produce event) o = write-Below marshal batch_size event p o
  Step-Below close o = record {
    in_order = o.in_order;
    batched = o.batched;
    queued = o.queued;
    pending = o.pending;
    sizes = o.sizes;
  }
  Step-Below {p} (select c h) o = choose-Below c p h o

  Reach-of_Below :
      {p q : Producer}
      → Ordered marshal batch_size p
      → Reach marshal batch_size p q
      → Ordered marshal batch_size q
  Reach-of_Below o here = o
  Reach-of_Below o (next r st) = Step-Below st (Reach-of_Below o r)

  start-Below : Ordered marshal batch_size (record new_producer { running = true })
  unfolding new_producer encode flatten
  start-Below = record {
    in_order = refl;
    batched = refl;
    queued = omega arith;
    pending = omega arith;
    sizes = tt;
  }

  -- In every state that the producer reaches from its start, by any interleaving of `Write`, of the
  -- flusher's choices and of `Close`: the accepted events are those that left the queue, in order,
  -- and then those in it; the batches handed to `flushBatch`, one after the other, and then the
  -- messages that wait spell exactly the messages of the events that left the queue, in order,
  -- without those that cannot be encoded; the queue holds at most 100000 events; each batch holds
  -- at least one message and at most the batch size, or one where that is 0; and fewer wait.
  pub Reach-Ordered :
      {p : Producer}
      → Reach marshal batch_size (record new_producer { running = true }) p
      → Ordered marshal batch_size p
  Reach-Ordered r = Reach-of_Below start-Below r
