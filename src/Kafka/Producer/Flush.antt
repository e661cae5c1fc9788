-- ===== src/Kafka/Producer/Flush.antt =====
-- internal/adapter/outbound/kafka/producer.go: the steps of the producer, and its invariant.
use mathlib.Core.List.{flatten}
use Prim.Native.Nat.{max}
use dns_flow.Prelude.{
  ℕ, ◌+◌, ◌≤◌, ◌<◌, ◌≡◌, refl, sym, ap, subst, ◌∙◌, Text, Bool-cases, Option, Option-cases, none,
  some, List, [], ◌∷◌, ◌++◌, append_assoc, append-nil, length, length-append, flatten_last, leb,
  ltb, ltb→lt, leb_false→lt, All, All-append, inl, inr, arith,
}
use dns_flow.Domain.{DnsRawEvent}
use dns_flow.Kafka.Producer.{
  Message, Producer, queue_capacity, write, flush_messages, flush, Choice, receive_event, choose,
  close_done,
}

module _ (marshal : DnsRawEvent → Option Text) where
  -- The messages of a run of events: those that can be encoded, keyed by their name.
  unfoldable pub encode : List DnsRawEvent → List Message
  encode [] = []
  encode (event ∷ rest) = elim (marshal event) [
    | none ↦ encode rest
    | some text ↦ record { key = event.dns.qname; value = text } ∷ encode rest
  ]

  encode-append : (xs ys : List DnsRawEvent) → encode (xs ++ ys) ≡ encode xs ++ encode ys
  unfolding encode
  encode-append [] ys = refl
  encode-append (x ∷ xs) ys = ground (arith, encode-append xs ys)

  encode-none : (event : DnsRawEvent) → marshal event ≡ none → encode (event ∷ []) ≡ []
  unfolding encode
  encode-none event h = rw (h, encode)

  encode-some :
      (event : DnsRawEvent) (text : Text)
      → marshal event ≡ some text
      → encode (event ∷ []) ≡ (record { key = event.dns.qname; value = text }) ∷ []
  unfolding encode
  encode-some event text h = rw (h, encode)

module _ (marshal : DnsRawEvent → Option Text) (batch_size : ℕ) where
  -- One call of `Write` or `Close`, or one round of the flusher.
  pub data Step (p : Producer) : Producer → Type 0 where
    produce : (event : DnsRawEvent) → Step p (write event p)
    close : Step p (close_done p)
    select : (c : Choice) {q : Producer} → choose marshal batch_size c p ≡ some q → Step p q

  pub data Reach (p : Producer) : Producer → Type 0 where
    here : Reach p p
    next : {q r : Producer} → Reach p q → Step q r → Reach p r

  abbrev pub limit : ℕ
  limit = max 1 batch_size

  -- `n` bounds the messages that wait for the next flush.
  pub record Below (n : ℕ) (p : Producer) : Type 0 where
    pub in_order : p.accepted ≡ p.taken ++ p.queue
    pub batched : flatten p.flushed ++ p.messages ≡ encode marshal p.taken
    pub queued : length p.queue ≤ queue_capacity
    pub pending : length p.messages < n
    pub sizes : All (λ b. (1 ≤ length b) × (length b ≤ limit)) p.flushed

  abbrev pub Ordered : Producer → Type 0
  Ordered p = Below limit p

  pub write-Below : (event : DnsRawEvent) (p : Producer) → Ordered p → Ordered (write event p)
  unfolding write
  write-Below event p o = elim (Bool-cases (ltb (length p.queue) queue_capacity)) [
    | inl room ↦ rw room (record {
      in_order = rw (o.in_order, append_assoc) refl;
      batched = o.batched;
      queued = omega (arith, ltb→lt _ _ room, length-append {0} p.queue (event ∷ []));
      pending = o.pending;
      sizes = o.sizes;
    })
    | inr full ↦ rw full (record {
      in_order = o.in_order;
      batched = o.batched;
      queued = o.queued;
      pending = o.pending;
      sizes = o.sizes;
    })
  ]

  flush_messages-Below :
      (ms : List Message) (p : Producer)
      → p.messages ≡ ms
      → Below (limit + 1) p
      → Ordered (flush_messages ms p)
  unfolding flush_messages
  flush_messages-Below [] p e o = record {
    in_order = o.in_order;
    batched = o.batched;
    queued = o.queued;
    pending = rw e (omega arith);
    sizes = o.sizes;
  }
  flush_messages-Below (m ∷ ms) p e o = record {
    in_order = o.in_order;
    batched = append-nil _ ∙ flatten_last p.flushed (m ∷ ms) ∙ rw (← e) o.batched;
    queued = o.queued;
    pending = omega arith;
    sizes =
        All-append _ p.flushed ((m ∷ ms) ∷ []) o.sizes
          ((omega arith, omega (arith, o.pending, ap length e)), tt);
  }

  pub flush-Below : (p : Producer) → Below (limit + 1) p → Ordered (flush p)
  unfolding flush
  flush-Below p o = flush_messages-Below p.messages p refl o

  pub weaken : (p : Producer) → Ordered p → Below (limit + 1) p
  weaken p o = record {
    in_order = o.in_order;
    batched = o.batched;
    queued = o.queued;
    pending = omega (arith, o.pending);
    sizes = o.sizes;
  }

  -- The state after an event was taken from the queue and before its message is flushed.
  abbrev received : DnsRawEvent → List DnsRawEvent → List Message → Producer → Producer
  received event rest ms p = record p {
    queue = rest;
    taken = p.taken ++ event ∷ [];
    messages = p.messages ++ ms;
  }

  received-Below :
      (n : ℕ) (event : DnsRawEvent) (rest : List DnsRawEvent) (ms : List Message) (p : Producer)
      → p.queue ≡ event ∷ rest
      → encode marshal (event ∷ []) ≡ ms
      → length p.messages + length ms < n
      → Ordered p
      → Below n (received event rest ms p)
  received-Below n event rest ms p e m fits o = record {
    in_order = rw (o.in_order, e, append_assoc) refl;
    batched =
        sym (append_assoc (flatten p.flushed) p.messages ms)
        ∙ rw (o.batched, encode-append marshal, m) refl;
    queued = omega (arith, o.queued, ap length e);
    pending = omega (arith, length-append {0} p.messages ms);
    sizes = o.sizes;
  }

  pub receive_event-Below :
      (event : DnsRawEvent) (rest : List DnsRawEvent) (p : Producer)
      → p.queue ≡ event ∷ rest
      → Ordered p
      → Ordered (receive_event marshal batch_size event rest p)
  unfolding receive_event
  receive_event-Below event rest p e o = elim (Option-cases (marshal event)) [
    | inl bad ↦
        rw (bad, receive_event)
          (subst
            (λ ms.
              Ordered (record p { queue = rest; taken = p.taken ++ event ∷ []; messages = ms }))
            (append-nil p.messages)
            (received-Below limit event rest [] p e (encode-none marshal event bad)
              (omega (arith, o.pending)) o))
    | inr (text, good) ↦
        let m : List Message = (record { key = event.dns.qname; value = text }) ∷ [] in
        let fits =
          received-Below (limit + 1) event rest m p e (encode-some marshal event text good)
            (omega (arith, o.pending)) o in
        elim (Bool-cases (leb batch_size (length (p.messages ++ m)))) [
          | inl full ↦ rw (good, receive_event, full) (flush-Below _ fits)
          | inr room ↦
              rw (good, receive_event, room)
                (received-Below limit event rest m p e (encode-some marshal event text good)
                  (omega (arith, leb_false→lt _ _ room, length-append {0} p.messages m)) o)
        ]
  ]
