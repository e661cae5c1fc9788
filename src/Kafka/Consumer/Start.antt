-- ===== src/Kafka/Consumer/Start.antt =====
-- internal/adapter/inbound/kafka/consumer.go: `waitForTopic`, `Start` and `Stop`.
--
-- Parameters: what the calls of `Metadata` of kafka-go return, in their order. A function gives
-- `none` where it still waits when they run out.
use dns_flow.Prelude.{
  ◌≡◌, ◌⊎◌, inl, inr, refl, Text, text_eq, Bool, Bool-cases, true, false, not, ◌&&◌, ◌||◌, List, [],
  ◌∷◌, Option, none, some, if◌then◌else◌,
}

pub record Config : Type 0 where
  pub brokers : List Text
  pub topic : Text
  pub group_id : Text

-- A topic of the answer: its name, and whether it has an error.
pub record TopicMetadata : Type 0 where
  pub name : Text
  pub has_error : Bool

-- A round: the answer, `none` for an error, and whether the context is done before the second that
-- follows is over.
pub record Poll : Type 0 where
  pub answer : Option (List TopicMetadata)
  pub ctx_done : Bool

-- `Start` has set `cancel`, or has set `reader`; the loop runs.
pub record Consumer : Type 0 where
  pub has_cancel : Bool
  pub has_reader : Bool
  pub running : Bool

unfoldable pub new_consumer : Consumer
new_consumer = record { has_cancel = false; has_reader = false; running = false }

-- Why `waitForTopic` returned; the code does not say it.
pub data Waited : Type 0 where
  found cancelled : Waited

module _ (cfg : Config) where
  unfoldable pub is_listed : List TopicMetadata → Bool
  is_listed [] = false
  is_listed (t ∷ ts) = text_eq t.name cfg.topic && not t.has_error || is_listed ts

  unfoldable pub is_found : Option (List TopicMetadata) → Bool
  unfolding is_listed
  is_found none = false
  is_found (some topics) = is_listed topics

  unfoldable pub wait_for_topic : List Poll → Option Waited
  unfolding is_found
  wait_for_topic [] = none
  wait_for_topic (p ∷ polls) =
      let rest = wait_for_topic polls in
      if is_found p.answer then some found else if p.ctx_done then some cancelled else rest

  -- `Start` goes on for whatever reason the wait has ended.
  unfoldable pub start : List Poll → Consumer → Option Consumer
  unfolding wait_for_topic
  start polls c = elim (wait_for_topic polls) [
    | none ↦ none
    | some waited ↦ some (record { has_cancel = true; has_reader = true; running = true })
  ]

  -- A poll that ends the wait.
  abbrev Ends : Poll → Type 0
  Ends p = (is_found p.answer ≡ true) ⊎ (p.ctx_done ≡ true)

  wait_for_topic-Ends :
      (p : Poll) (polls : List Poll)
      → Ends p
      → (waited : Waited) × (wait_for_topic (p ∷ polls) ≡ some waited)
  unfolding wait_for_topic
  wait_for_topic-Ends p polls e = elim (Bool-cases (is_found p.answer)) [
    | inl listed ↦ (found, rw listed refl)
    | inr missing ↦ elim e [ inl listed ↦ cc | inr done ↦ (cancelled, rw (missing, done) refl) ]
  ]

  -- Polls that find nothing before the context is done change nothing.
  wait_for_topic_missing :
      (p : Poll) (polls : List Poll)
      → is_found p.answer ≡ false
      → p.ctx_done ≡ false
      → wait_for_topic (p ∷ polls) ≡ wait_for_topic polls
  unfolding wait_for_topic
  wait_for_topic_missing p polls missing on = rw (missing, on) refl

  -- Whatever ends the wait, the topic or the context, `Start` opens a reader and runs the loop.
  start-Ends :
      (p : Poll) (polls : List Poll) (c : Consumer)
      → Ends p
      → start (p ∷ polls) c ≡ some (record { has_cancel = true; has_reader = true; running = true })
  unfolding start
  start-Ends p polls c e = rw ((wait_for_topic-Ends p polls e).1, start) refl

-- `Stop` behind the wait for the loop, which the end of the context ends.
unfoldable pub stop : Consumer → Consumer
stop c = record c { running = not c.has_cancel && c.running }
