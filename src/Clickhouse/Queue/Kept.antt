-- ===== src/Clickhouse/Queue/Kept.antt =====
-- internal/adapter/outbound/clickhouse/writer.go: the steps of the writer, and its invariant.
use mathlib.Core.List.{flatten}
use dns_flow.Prelude.{
  ℕ, ◌+◌, ◌<◌, ◌≡◌, refl, ap, ◌∙◌, Text, Bool-cases, true, false, Option, some, List, [], ◌∷◌, ◌++◌,
  append_assoc, length, length-append, leb, ltb, ltb→lt, leb_false→lt, inl, inr, guarded_some,
  subst, arith,
}
use dns_flow.Domain.{DnsRawEvent, EdnsOption}
use dns_flow.Clickhouse.Queue.Counts.{nothing, Below, Kept, weaken, flush-Kept}
use dns_flow.Clickhouse.Queue.{
  Writer, queue_capacity, batch_limit, new_writer, write, Answers, Choice, stop, receive, tick,
  flush, receive_event, from_queue, choose, close_done,
}

module _ (marshal : List EdnsOption → Option Text) where
  -- One call of `Write` or `Close`, or one round of the flusher, which `Migrate` starts only after
  -- it has set the connection.
  pub data Step (w : Writer) : Writer → Type 0 where
    accept : (event : DnsRawEvent) → Step w (write event w)
    close : Step w (close_done w)
    select :
        (c : Choice) (a : Answers) {v : Writer}
        → a.driver.connected ≡ true
        → choose marshal c a w ≡ some v
        → Step w v

  pub data Reach (w : Writer) : Writer → Type 0 where
    here : Reach w w
    next : {v u : Writer} → Reach w v → Step v u → Reach w u

  module _ (a : Answers) where
    received-Below :
        (n : ℕ) (event : DnsRawEvent) (rest : List DnsRawEvent) (w : Writer)
        → w.queue ≡ event ∷ rest
        → length w.events + 1 < n
        → Kept marshal w
        → Below marshal n (record w { queue = rest; events = w.events ++ event ∷ [] })
    received-Below n event rest w e fits o = record {
      in_order = o.in_order ∙ rw (e, append_assoc w.events) refl;
      queued = omega (arith, o.queued, ap length e);
      pending = omega (arith, length-append {0} w.events (event ∷ []));
      sizes = o.sizes;
      stored = o.stored;
      at_most_once = o.at_most_once;
      lost_with_error = o.lost_with_error;
    }

    receive_event-Kept :
        (event : DnsRawEvent) (rest : List DnsRawEvent) (w : Writer)
        → a.driver.connected ≡ true
        → w.queue ≡ event ∷ rest
        → Kept marshal w
        → Kept marshal (receive_event marshal a event rest w)
    unfolding receive_event
    receive_event-Kept event rest w on e o =
        elim (Bool-cases (leb batch_limit (length (w.events ++ event ∷ [])))) [
          | inl full ↦ rw full (
              flush-Kept marshal a _ on
                (received-Below (batch_limit + 1) event rest w e (omega (arith, o.pending)) o))
          | inr room ↦ rw room (
              received-Below batch_limit event rest w e
                (omega (arith, leb_false→lt _ _ room, length-append {0} w.events (event ∷ []))) o)
        ]

    from_queue-Kept :
        (l : List DnsRawEvent) (w : Writer) {v : Writer}
        → a.driver.connected ≡ true
        → w.queue ≡ l
        → from_queue marshal a l w ≡ some v
        → Kept marshal w
        → Kept marshal v
    unfolding from_queue
    from_queue-Kept [] w on e h o = cc
    from_queue-Kept (event ∷ rest) w {v} on e h o =
        let same : receive_event marshal a event rest w ≡ v = cc in
        subst (Kept marshal) same (receive_event-Kept event rest w on e o)

    choose-Kept :
        (c : Choice) (w : Writer) {v : Writer}
        → a.driver.connected ≡ true
        → choose marshal c a w ≡ some v
        → Kept marshal w
        → Kept marshal v
    unfolding choose
    choose-Kept stop w {v} on h o =
        let h' = (guarded_some w.running _ h).1 in
        let same : record (flush marshal a w) { running = false } ≡ v =
          let e = (guarded_some w.done _ h').1 in cc in
        let f = flush-Kept marshal a w on (weaken marshal w o) in
        subst (Kept marshal) same (record {
          in_order = f.in_order;
          queued = f.queued;
          pending = f.pending;
          sizes = f.sizes;
          stored = f.stored;
          at_most_once = f.at_most_once;
          lost_with_error = f.lost_with_error;
        })
    choose-Kept receive w on h o =
        from_queue-Kept w.queue w on refl (guarded_some w.running _ h).1 o
    choose-Kept tick w {v} on h o =
        let same : flush marshal a w ≡ v = let e = (guarded_some w.running _ h).1 in cc in
        subst (Kept marshal) same (flush-Kept marshal a w on (weaken marshal w o))

  write-Kept : (event : DnsRawEvent) (w : Writer) → Kept marshal w → Kept marshal (write event w)
  unfolding write
  write-Kept event w o = elim (Bool-cases (ltb (length w.queue) queue_capacity)) [
    | inl room ↦ rw room (record {
      in_order =
          ap (λ l. l ++ event ∷ []) o.in_order
          ∙ rw (append_assoc (flatten w.batches), append_assoc w.events) refl;
      queued = omega (arith, ltb→lt _ _ room, length-append {0} w.queue (event ∷ []));
      pending = o.pending;
      sizes = o.sizes;
      stored = o.stored;
      at_most_once = o.at_most_once;
      lost_with_error = o.lost_with_error;
    })
    | inr full ↦ rw full (record {
      in_order = o.in_order;
      queued = o.queued;
      pending = o.pending;
      sizes = o.sizes;
      stored = o.stored;
      at_most_once = o.at_most_once;
      lost_with_error = o.lost_with_error;
    })
  ]

  Step-Kept : {w v : Writer} → Step w v → Kept marshal w → Kept marshal v
  unfolding close_done
  Step-Kept {w} (accept event) o = write-Kept event w o
  Step-Kept close o = record {
    in_order = o.in_order;
    queued = o.queued;
    pending = o.pending;
    sizes = o.sizes;
    stored = o.stored;
    at_most_once = o.at_most_once;
    lost_with_error = o.lost_with_error;
  }
  Step-Kept {w} (select c a on h) o = choose-Kept a c w on h o

  Reach-of_Kept : {w v : Writer} → Kept marshal w → Reach w v → Kept marshal v
  Reach-of_Kept o here = o
  Reach-of_Kept o (next r st) = Step-Kept st (Reach-of_Kept o r)

  start-Kept : Kept marshal (record new_writer { running = true })
  unfolding new_writer flatten
  start-Kept = record {
    in_order = refl;
    queued = omega arith;
    pending = omega arith;
    sizes = tt;
    stored = nothing;
    at_most_once = omega arith;
    lost_with_error = omega arith;
  }

  -- In every state that the writer reaches from its start, by any interleaving of `Write`, of the
  -- flusher's choices and of `Close`, whatever the driver answers on its connection: the accepted
  -- events are those of the batches handed to `flushBatch`, in order, then those that wait for the
  -- next flush, then those in the queue; the queue holds at most 100000 events, each batch from 1 to
  -- 1000, and fewer than 1000 wait. The database was sent, batch after batch, all rows of the batch,
  -- or those of `dns_raw` alone, or none, and in the last two cases `flushBatch` returned an error;
  -- so `dns_raw` was sent at most one row for each event of the batches, and at least as many as
  -- there are events beyond those of the batches with an error.
  pub Reach-Kept : {w : Writer} → Reach (record new_writer { running = true }) w → Kept marshal w
  Reach-Kept r = Reach-of_Kept start-Kept r
