-- ===== src/Kafka/Consumer/Delivery.antt =====
-- internal/adapter/inbound/kafka/consumer.go on the messages of
-- internal/adapter/outbound/kafka/producer.go.
use dns_flow.Prelude.{
  All, ◌⊎◌, ◌+◌, ◌≡◌, refl, ◌∙◌, Text, Option, none, some, inl, inr, List, [], ◌∷◌, length, map,
  arith,
}
use dns_flow.Domain.{DnsRawEvent}
use dns_flow.Domain.Ports.{Storage, write_storages}
use dns_flow.Kafka.Producer.{Message}
use dns_flow.Kafka.Producer.Flush.{encode}
use dns_flow.Kafka.Consumer.{Read, message, Loop, handle_event, handle_message, loop}

module _ {W E : Type 0} (marshal : DnsRawEvent → Option Text)
    (unmarshal : Text → Option DnsRawEvent) (storages : List (Storage W E)) where
  -- The events that can be encoded.
  unfoldable pub encodable : List DnsRawEvent → List DnsRawEvent
  encodable [] = []
  encodable (event ∷ rest) = elim (marshal event) [
    | none ↦ encodable rest
    | some text ↦ event ∷ encodable rest
  ]

  -- Every event to every storage, one after the other.
  unfoldable pub write_all : List DnsRawEvent → W → W
  write_all [] w = w
  write_all (event ∷ rest) w = write_all rest (write_storages storages event w).0

  abbrev pub reads_of : List Message → List Read
  reads_of = map (λ m. message m.value)

  -- The event cannot be encoded, or its text decodes to it again. Text that is not valid UTF-8
  -- does not: the encoder replaces the bytes in question.
  abbrev pub Decodes : DnsRawEvent → Type 0
  Decodes event =
      (marshal event ≡ none)
      ⊎ ((text : Text) × (marshal event ≡ some text) × (unmarshal text ≡ some event))

  handled :
      (event : DnsRawEvent) (text : Text)
      → unmarshal text ≡ some event
      → (l : Loop W E)
      → handle_message unmarshal storages text l ≡ handle_event unmarshal storages event l
  unfolding handle_message
  handled event text good l = rw (good, handle_message)

  -- For a run of events each of which cannot be encoded or decodes to itself again: a consumer that
  -- reads the messages which the producer makes of them writes exactly the events that can be
  -- encoded, in order, each to all storages, counts them, and meets no message that it cannot
  -- decode.
  pub loop-encode :
      (events : List DnsRawEvent) (l : Loop W E)
      → All Decodes events
      → let l' = loop unmarshal storages (reads_of (encode marshal events)) l in
        (l'.world ≡ write_all (encodable events) l.world)
        × (l'.total ≡ l.total + length (encodable events))
        × (l'.unmarshal_errors ≡ l.unmarshal_errors)
        × (l'.running ≡ l.running)
  unfolding loop encode encodable write_all handle_event
  loop-encode [] l h = (refl, omega arith, refl, refl)
  loop-encode (event ∷ rest) l (inl bad, h) = rw (bad, encode, encodable) (loop-encode rest l h)
  loop-encode (event ∷ rest) l (inr (text, good, back), h) =
      rw (good, encode, encodable, loop, handled event text back l)
        (let ih = loop-encode rest (handle_event unmarshal storages event l) h in
          (ih.0, ih.1 ∙ omega arith, ih.2, ih.3))
