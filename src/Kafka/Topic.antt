-- ===== src/Kafka/Topic.antt =====
-- internal/adapter/outbound/kafka/producer.go: `Migrate`, which finds or creates the topic.
--
-- Parameters: the answers of the broker through the client of kafka-go. `metadata` gives the answer
-- of each call in turn, `none` for an error; `create` and `alter` the error of those calls, if any.
pub mod Polls
pub mod Fitness
use dns_flow.Prelude.{
  ℕ, zero, suc, ◌+◌, Text, codes, text_eq, Bool, true, false, not, ◌&&◌, ◌||◌, List, [], ◌∷◌,
  Option, none, some, ◌⊎◌, inl, inr, if◌then◌else◌,
}
use dns_flow.Prelude.Outcome.{Outcome, returned, panicked}
use dns_flow.Kafka.Producer.{Config, Producer, start_flusher}

pub record TopicMeta : Type 0 where
  pub name : Text
  pub has_error : Bool

pub record Broker (E : Type 0) : Type 0 where
  pub metadata : ℕ → Option (List TopicMeta)
  pub create : Option E
  pub alter : Option E

pub data MigrateError (E : Type 0) : Type 0 where
  create_topic : E → MigrateError E
  topic_not_ready : MigrateError E

pub data Compression : Type 0 where
  plain gzip lz4 zstd : Compression

unfoldable pub compression_of : Text → Compression
compression_of name =
    if text_eq name (codes "gzip")
    then gzip
    else if text_eq name (codes "lz4")
    then lz4
    else if text_eq name (codes "zstd")
    then zstd
    else plain

-- The first loop over the topics: it breaks at the first one of the name.
unfoldable pub topic_found : Text → List TopicMeta → Bool
topic_found topic [] = false
topic_found topic (t ∷ ts) = if text_eq t.name topic then not t.has_error else topic_found topic ts

-- The loop of the polling rounds over the topics: any one of the name without an error.
unfoldable pub topic_ready : Text → List TopicMeta → Bool
topic_ready topic [] = false
topic_ready topic (t ∷ ts) = (text_eq t.name topic && not t.has_error) || topic_ready topic ts

abbrev pub answers : (List TopicMeta → Bool) → Option (List TopicMeta) → Bool
answers test none = false
answers test (some topics) = test topics

-- The branches on a topic that was found, on its creation, and on the ten polling rounds.
unfoldable pub topic_outcome : {E : Type 0} → Bool → Option E → Bool → Option (MigrateError E)
topic_outcome true create polled = none
topic_outcome false (some e) polled = some (create_topic e)
topic_outcome false none true = none
topic_outcome false none false = some topic_not_ready

module _ {E : Type 0} (broker : Broker E) (topic : Text) where
  -- The polling rounds that are left; `call` numbers the next call of `Metadata`.
  unfoldable pub poll : ℕ → ℕ → Bool
  poll zero call = false
  poll (suc rounds) call =
      let later = poll rounds (suc call) in
      if answers (topic_ready topic) (broker.metadata call) then true else later

  unfoldable pub ensure_topic : Option (MigrateError E)
  ensure_topic =
      topic_outcome (answers (topic_found topic) (broker.metadata 0)) broker.create (poll 10 1)

-- What `Migrate` has set up when it returns nil. The failure of the retention setting is ignored.
pub record Ready (E : Type 0) : Type 0 where
  pub producer : Producer
  pub compression : Compression
  pub retention_error : Option E

module _ {E : Type 0} (broker : Broker E) (cfg : Config) where
  ready_after : Outcome Producer → Outcome (MigrateError E ⊎ Ready E)
  ready_after panicked = panicked
  ready_after (returned p) = returned (
      inr (record {
        producer = p;
        compression = compression_of cfg.compression;
        retention_error = if text_eq cfg.retention_ms [] then none else broker.alter;
      }))

  -- With no broker the index of the first one panics.
  unfoldable pub migrate : Producer → Outcome (MigrateError E ⊎ Ready E)
  unfolding ready_after
  migrate p = elim cfg.brokers [
    | [] ↦ panicked
    | ◌∷◌ first rest ↦ elim (ensure_topic broker cfg.topic) [
      | some e ↦ returned (inl e)
      | none ↦ ready_after (start_flusher cfg p)
    ]
  ]
