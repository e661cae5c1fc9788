-- ===== src/Kafka/Producer/Close.antt =====
-- internal/adapter/outbound/kafka/producer.go: the states after the flusher has returned.
use mathlib.Core.List.{flatten}
use dns_flow.Prelude.{
  ◌≡◌, refl, ap, sym, ◌∙◌, Text, Bool-cases, true, false, Option, none, some, List, [], ◌∷◌, ◌++◌,
  append_assoc, append-nil, flatten_last, inl, inr, ℕ, length, ltb,
}
use dns_flow.Domain.{DnsRawEvent}
use dns_flow.Kafka.Producer.{
  Message, Producer, queue_capacity, write, flush_messages, flush, Choice, stop, receive, tick,
  choose, close_done,
}
use dns_flow.Kafka.Producer.Flush.{Step, produce, close, select, Reach, here, next}

module _ (marshal : DnsRawEvent → Option Text) (batch_size : ℕ) where
  -- Nothing has been handed over since `q`, and the queue of `q` is still there, in front.
  pub record Abandons (q r : Producer) : Type 0 where
    pub over : r.running ≡ false
    pub flushed : r.flushed ≡ q.flushed
    pub more : List DnsRawEvent
    pub waiting : r.queue ≡ q.queue ++ more

  choose_stopped :
      (c : Choice) (p : Producer) → p.running ≡ false → choose marshal batch_size c p ≡ none
  unfolding choose
  choose_stopped stop p h = rw h
  choose_stopped receive p h = rw h
  choose_stopped tick p h = rw h

  write-Abandons :
      (event : DnsRawEvent) (q r : Producer) → Abandons q r → Abandons q (write event r)
  unfolding write
  write-Abandons event q r a = elim (Bool-cases (ltb (length r.queue) queue_capacity)) [
    | inl room ↦ rw room (record {
      over = a.over;
      flushed = a.flushed;
      more = a.more ++ event ∷ [];
      waiting = ap (λ l. l ++ event ∷ []) a.waiting ∙ append_assoc q.queue a.more (event ∷ []);
    })
    | inr full ↦
        rw full (record { over = a.over; flushed = a.flushed; more = a.more; waiting = a.waiting })
  ]

  Step-Abandons :
      (q : Producer) {r s : Producer} → Step marshal batch_size r s → Abandons q r → Abandons q s
  unfolding close_done
  Step-Abandons q {r} (produce event) a = write-Abandons event q r a
  Step-Abandons q close a = record {
    over = a.over;
    flushed = a.flushed;
    more = a.more;
    waiting = a.waiting;
  }
  Step-Abandons q {r} (select c h) a = let none' = choose_stopped c r a.over in cc

  Reach-Abandons :
      (q : Producer) {r s : Producer} → Reach marshal batch_size r s → Abandons q r → Abandons q s
  Reach-Abandons q here a = a
  Reach-Abandons q (next r st) a = Step-Abandons q st (Reach-Abandons q r a)

  flush_kept :
      (ms : List Message) (p : Producer)
      → (flatten (flush_messages ms p).flushed ≡ flatten p.flushed ++ ms)
        × ((flush_messages ms p).queue ≡ p.queue)
  unfolding flush_messages
  flush_kept [] p = (sym (append-nil (flatten p.flushed)), refl)
  flush_kept (m ∷ ms) p = (flatten_last p.flushed (m ∷ ms), refl)

  -- Once `Close` was called the flusher may choose to return. It then hands over the messages that
  -- it holds and nothing else: in every state `r` that follows, by any calls, no batch has been
  -- added, and every event that waited in the queue is still there.
  pub stop-Abandons :
      (p : Producer) {r : Producer}
      → p.running ≡ true
      → p.done ≡ true
      → Reach marshal batch_size (record (flush p) { running = false }) r
      → (choose marshal batch_size stop p ≡ some (record (flush p) { running = false }))
        × (flatten (flush p).flushed ≡ flatten p.flushed ++ p.messages)
        × ((flush p).queue ≡ p.queue)
        × Abandons (record (flush p) { running = false }) r
  unfolding choose flush
  stop-Abandons p {r} on closed reach =
      let kept = flush_kept p.messages p in
      (
        rw (on, closed),
        kept.0,
        kept.1,
        Reach-Abandons (record (flush p) { running = false }) reach
            (record { over = refl; flushed = refl; more = []; waiting = sym (append-nil _) }),
      )
