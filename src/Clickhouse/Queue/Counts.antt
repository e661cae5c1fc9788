-- ===== src/Clickhouse/Queue/Counts.antt =====
-- internal/adapter/outbound/clickhouse/writer.go: what a flush adds to the writer's counts.
use mathlib.Core.List.{flatten}
use dns_flow.Prelude.{
  ℕ, suc, ◌≢◌, ◌+◌, ◌≤◌, ◌<◌, ◌≡◌, refl, ap, ◌∙◌, Text, true, Option, Option-cases, none, List, [],
  ◌∷◌, ◌++◌, append_assoc, length, length-append, flatten_last, All, All-append, inl, inr, arith,
}
use dns_flow.Domain.{DnsRawEvent, EdnsOption}
use dns_flow.Clickhouse.Batch.{Sent, Batches, no_rows, flush_batch}
use dns_flow.Clickhouse.Outcomes.{raw_rows, Delivered, flush_batch-Delivered}
use dns_flow.Clickhouse.Queue.{
  Writer, queue_capacity, batch_limit, Answers, failed_after, flush_events, flush,
}

module _ (marshal : List EdnsOption → Option Text) where
  -- What the database was sent for a run of batches, of which some failed: one after the other, what
  -- `Delivered` says of each batch.
  pub data Stored : List (List DnsRawEvent) → List (List DnsRawEvent) → Batches → Type 0 where
    nothing : Stored [] [] no_rows
    batch :
        (a : Answers) (events : List DnsRawEvent) (s : Sent)
        {batches failed : List (List DnsRawEvent)} {rows : Batches}
        → Stored batches failed rows
        → Delivered a.driver marshal a.clock events s
        → Stored
            (batches ++ events ∷ [])
            (failed_after s events failed)
            (record { raw = rows.raw ++ s.rows.raw; answers = rows.answers ++ s.rows.answers })

  -- `n` bounds the events that wait for the next flush.
  pub record Below (n : ℕ) (w : Writer) : Type 0 where
    pub in_order : w.accepted ≡ flatten w.batches ++ (w.events ++ w.queue)
    pub queued : length w.queue ≤ queue_capacity
    pub pending : length w.events < n
    pub sizes : All (λ b. (1 ≤ length b) × (length b ≤ batch_limit)) w.batches
    pub stored : Stored w.batches w.failed w.rows
    pub at_most_once : length w.rows.raw ≤ length (flatten w.batches)
    pub lost_with_error : length (flatten w.batches) ≤ length w.rows.raw + length (flatten w.failed)

  abbrev pub Kept : Writer → Type 0
  Kept w = Below batch_limit w

  pub weaken : (w : Writer) → Kept w → Below (batch_limit + 1) w
  weaken w o = record {
    in_order = o.in_order;
    queued = o.queued;
    pending = omega (arith, o.pending);
    sizes = o.sizes;
    stored = o.stored;
    at_most_once = o.at_most_once;
    lost_with_error = o.lost_with_error;
  }

module _ (marshal : List EdnsOption → Option Text) (a : Answers) where
  length-raw_rows :
      (i : ℕ) (events : List DnsRawEvent)
      → length (raw_rows a.driver marshal a.clock i events) ≡ length events
  length-raw_rows i [] = refl
  length-raw_rows i (event ∷ rest) = ap suc (length-raw_rows (i + 1) rest)

  -- What a flush of `events` adds to the counts.
  abbrev Counted : List DnsRawEvent → List (List DnsRawEvent) → Sent → Type 0
  Counted events failed s =
      (length s.rows.raw ≤ length events)
      × (length events + length (flatten failed)
          ≤ length s.rows.raw + length (flatten (failed_after s events failed)))

  failed_after-counted :
      (events : List DnsRawEvent) (failed : List (List DnsRawEvent)) (s : Sent)
      → s.error ≢ none
      → length events + length (flatten failed) ≤ length (flatten (failed_after s events failed))
  failed_after-counted events failed s h = elim (Option-cases s.error) [
    | inl e ↦ absurd (h e)
    | inr (x, e) ↦ rw e (
        omega (
          arith,
          ap length (flatten_last failed events),
          length-append {0} (flatten failed) events,
        ))
  ]

  Delivered-Counted :
      (events : List DnsRawEvent) (failed : List (List DnsRawEvent)) (s : Sent)
      → Delivered a.driver marshal a.clock events s
      → Counted events failed s
  Delivered-Counted events failed s (inl (e, r)) =
      rw (e, r) (omega (arith, length-raw_rows 0 events), omega (arith, length-raw_rows 0 events))
  Delivered-Counted events failed s (inr (inl (e, r))) =
      let bad : s.error ≢ none = λ n. ground (arith, e, n) in
      (
        rw r (omega (arith, length-raw_rows 0 events)),
        omega (arith, failed_after-counted events failed s bad),
      )
  Delivered-Counted events failed s (inr (inr (bad, r))) =
      (rw r (omega arith), omega (arith, failed_after-counted events failed s bad))

  flush_events-Kept :
      (events : List DnsRawEvent) (w : Writer)
      → a.driver.connected ≡ true
      → w.events ≡ events
      → Below marshal (batch_limit + 1) w
      → Kept marshal (flush_events marshal a events w)
  unfolding flush_events
  flush_events-Kept [] w on e o = record {
    in_order = o.in_order;
    queued = o.queued;
    pending = rw e (omega arith);
    sizes = o.sizes;
    stored = o.stored;
    at_most_once = o.at_most_once;
    lost_with_error = o.lost_with_error;
  }
  flush_events-Kept (x ∷ xs) w on e o =
      let s : Sent = flush_batch a.driver marshal a.clock (x ∷ xs) in
      let outcome = flush_batch-Delivered a.driver marshal a.clock (x ∷ xs) on in
      let c = Delivered-Counted (x ∷ xs) w.failed s outcome in
      let flat : length (flatten (w.batches ++ (x ∷ xs) ∷ []))
          ≡ length (flatten w.batches) + length (x ∷ xs) =
        ap length (flatten_last w.batches (x ∷ xs)) ∙ length-append _ _ in
      record {
        in_order =
            o.in_order
            ∙ rw
                (
                  e,
                  flatten_last w.batches (x ∷ xs),
                  append_assoc (flatten w.batches) (x ∷ xs) w.queue,
                )
                refl;
        queued = o.queued;
        pending = omega arith;
        sizes =
            All-append _ w.batches ((x ∷ xs) ∷ []) o.sizes
              ((omega arith, omega (arith, o.pending, ap length e)), tt);
        stored = batch a (x ∷ xs) s o.stored outcome;
        at_most_once =
            omega (arith, flat, c.0, o.at_most_once, length-append {0} w.rows.raw s.rows.raw);
        lost_with_error =
            omega (arith, flat, c.1, o.lost_with_error, length-append {0} w.rows.raw s.rows.raw);
      }

  pub flush-Kept :
      (w : Writer)
      → a.driver.connected ≡ true
      → Below marshal (batch_limit + 1) w
      → Kept marshal (flush marshal a w)
  unfolding flush
  flush-Kept w on o = flush_events-Kept w.events w on refl o
