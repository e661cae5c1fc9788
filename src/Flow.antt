-- ===== src/Flow.antt =====
-- The way of an event from the Kafka producer to the ClickHouse writer: both as storages, as
-- cmd/dns-flow/main.go hands them to the pipeline and to the consumer.
--
-- Parameters: what `Migrate` of each does, and those of the components.
use mathlib.Core.List.{flatten}
use dns_flow.Prelude.{
  ℕ, ◌+◌, ◌≤◌, ◌≡◌, refl, sym, ap, subst, ◌∙◌, Text, codes, true, List, [], ◌∷◌, ◌++◌, append_assoc,
  append-nil, length, length-append, ltb, lt→ltb, Option, Option-cases, none, All, inl, inr, arith,
}
use dns_flow.Domain.{DnsRawEvent}
use dns_flow.Domain.Ports.{Storage, write_storages}
use dns_flow.Kafka.Producer
use dns_flow.Kafka.Producer.{Producer, new_producer}
use dns_flow.Kafka.Producer.Flush.{Reach, Ordered, encode}
use dns_flow.Kafka.Producer.Batches.{Reach-Ordered}
use dns_flow.Kafka.Consumer.{Loop, loop}
use dns_flow.Kafka.Consumer.Delivery.{Decodes, encodable, write_all, reads_of, loop-encode}
use dns_flow.Clickhouse.Queue
use dns_flow.Clickhouse.Queue.{Writer, queue_capacity}

module _ {E : Type 0} where
  unfoldable pub producer_storage : (Producer → Producer × Option E) → Storage Producer E
  producer_storage migrate = record {
    name = codes "kafka";
    write = λ event p. (Producer.write event p, none);
    migrate = migrate;
    close = λ p. (Producer.close_done p, none);
  }

  unfoldable pub clickhouse_storage : (Writer → Writer × Option E) → Storage Writer E
  clickhouse_storage migrate = record {
    name = codes "clickhouse";
    write = λ event w. (Queue.write event w, none);
    migrate = migrate;
    close = λ w. (Queue.close_done w, none);
  }

module _ {E : Type 0} (marshal : DnsRawEvent → Option Text) (unmarshal : Text → Option DnsRawEvent)
    (migrate : Writer → Writer × Option E) where
  -- What events add to a writer whose queue has room for them.
  abbrev pub Gains : List DnsRawEvent → Writer → Writer → Type 0
  Gains events w w' =
      (w'.accepted ≡ w.accepted ++ events)
      × (w'.queue ≡ w.queue ++ events)
      × (w'.dropped ≡ w.dropped)

  write-Gains :
      (event : DnsRawEvent) (w : Writer)
      → length w.queue + 1 ≤ queue_capacity
      → Gains (event ∷ []) w (Queue.write event w)
  unfolding Queue.write
  write-Gains event w room =
      let fits : ltb (length w.queue) queue_capacity ≡ true = lt→ltb _ _ (omega (arith, room)) in
      rw fits (refl, refl, refl)

  Gains-trans :
      (event : DnsRawEvent) (rest : List DnsRawEvent) (u v w : Writer)
      → Gains (event ∷ []) u v
      → Gains rest v w
      → Gains (event ∷ rest) u w
  Gains-trans event rest u v w g h = (
    h.0 ∙ rw (g.0) (append_assoc u.accepted (event ∷ []) rest),
    h.1 ∙ rw (g.1) (append_assoc u.queue (event ∷ []) rest),
    h.2 ∙ g.2,
  )

  write_all-Gains :
      (events : List DnsRawEvent) (w : Writer)
      → length w.queue + length events ≤ queue_capacity
      → Gains events w (write_all marshal unmarshal (clickhouse_storage migrate ∷ []) events w)
  unfolding write_all write_storages clickhouse_storage
  write_all-Gains [] w room = (sym (append-nil w.accepted), sym (append-nil w.queue), refl)
  write_all-Gains (event ∷ rest) w room =
      let first = write-Gains event w (omega (arith, room)) in
      Gains-trans event rest w (Queue.write event w)
        (write_all marshal unmarshal (clickhouse_storage migrate ∷ []) rest (Queue.write event w))
        first
        (write_all-Gains rest (Queue.write event w)
          (omega (arith, room, ap length first.1, length-append {0} w.queue (event ∷ []))))

  length-encodable :
      (events : List DnsRawEvent)
      → length (encodable marshal unmarshal (clickhouse_storage migrate ∷ []) events)
        ≤ length events
  unfolding encodable
  length-encodable [] = omega arith
  length-encodable (event ∷ rest) = elim (Option-cases (marshal event)) [
    | inl bad ↦ rw (bad, encodable) (omega (arith, length-encodable rest))
    | inr (text, good) ↦ rw (good, encodable) (omega (arith, length-encodable rest))
  ]

  -- The batches of a producer that holds nothing back.
  flushed-encode :
      (batch_size : ℕ) (p : Producer)
      → Ordered marshal batch_size p
      → p.queue ≡ []
      → p.messages ≡ []
      → flatten p.flushed ≡ encode marshal p.accepted
  flushed-encode batch_size p o empty sent =
      let taken : p.accepted ≡ p.taken =
        o.in_order ∙ ap (λ l. p.taken ++ l) empty ∙ append-nil p.taken in
      sym (append-nil (flatten p.flushed))
      ∙ ap (λ l. flatten p.flushed ++ l) (sym sent)
      ∙ o.batched
      ∙ ap (encode marshal) (sym taken)

  -- The result of the consumer on the messages of some events.
  loop-encode-Gains :
      (events : List DnsRawEvent) (l : Loop Writer E)
      → All (Decodes marshal unmarshal (clickhouse_storage migrate ∷ [])) events
      → length l.world.queue + length events ≤ queue_capacity
      → let storages = clickhouse_storage migrate ∷ [] in
        let l' =
          loop unmarshal storages (reads_of marshal unmarshal storages (encode marshal events)) l in
        Gains (encodable marshal unmarshal storages events) l.world l'.world
        × (l'.unmarshal_errors ≡ l.unmarshal_errors)
  loop-encode-Gains events l decodes room =
      let storages : List (Storage Writer E) = clickhouse_storage migrate ∷ [] in
      let whole = loop-encode marshal unmarshal storages events l decodes in
      let kept : List DnsRawEvent = encodable marshal unmarshal storages events in
      (
        subst (Gains kept l.world) (sym whole.0)
            (write_all-Gains kept l.world (omega (arith, room, length-encodable events))),
        whole.2,
      )

  -- Once the producer has handed over all that it accepted, its batches, read by a consumer whose
  -- storage is the ClickHouse writer, put exactly the accepted events that can be encoded into the
  -- writer's queue, in order, and drop none. This holds of every reachable state of the producer
  -- whose queue is empty and in which no message waits, for every writer with room for the accepted
  -- events, where each event cannot be encoded or decodes to itself again.
  pub loop-Gains :
      (batch_size : ℕ) {p : Producer} (l : Loop Writer E)
      → Reach marshal batch_size (record new_producer { running = true }) p
      → p.queue ≡ []
      → p.messages ≡ []
      → All (Decodes marshal unmarshal (clickhouse_storage migrate ∷ [])) p.accepted
      → length l.world.queue + length p.accepted ≤ queue_capacity
      → let l' =
          loop unmarshal
            (clickhouse_storage migrate ∷ [])
            (reads_of marshal unmarshal (clickhouse_storage migrate ∷ []) (flatten p.flushed))
            l in
        Gains
          (encodable marshal unmarshal (clickhouse_storage migrate ∷ []) p.accepted)
          l.world
          l'.world
        × (l'.unmarshal_errors ≡ l.unmarshal_errors)
  loop-Gains batch_size {p} l reach empty sent decodes room =
      let storages : List (Storage Writer E) = clickhouse_storage migrate ∷ [] in
      let flat = flushed-encode batch_size p (Reach-Ordered marshal batch_size reach) empty sent in
      subst
        (λ ms.
          Gains (encodable marshal unmarshal storages p.accepted) l.world
            (loop unmarshal storages (reads_of marshal unmarshal storages ms) l).world
          × ((loop unmarshal storages (reads_of marshal unmarshal storages ms) l).unmarshal_errors
              ≡ l.unmarshal_errors))
        (sym flat) (loop-encode-Gains p.accepted l decodes room)
