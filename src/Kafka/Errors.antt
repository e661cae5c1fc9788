-- ===== src/Kafka/Errors.antt =====
-- internal/adapter/outbound/kafka/producer.go: which errors of a write are retried.
--
-- The errors of kafka-go that the code tells apart; any other code or error is `other`. An error
-- that wraps another is unwrapped by `errors.Is` and `errors.As`. In a kafka.WriteErrors a message
-- that was written has a nil entry.
use dns_flow.Prelude.{
  ◌≤◌, Text, codes, Bool, true, false, ◌||◌, ◌↔◌, ◌≡◌, refl, ◌++◌, length, length-append,
  length-take, take, ltb, if◌then◌else◌, Bool-cases, inl, inr, arith,
}

mutual
  pub data KafkaError : Type 0 where
    unknown_topic_or_partition leader_not_available not_leader_for_partition : KafkaError
    request_timed_out : KafkaError
    wrapped : KafkaError → KafkaError
    write_errors : WriteErrors → KafkaError
    other : Text → KafkaError

  pub data WriteErrors : Type 0 where
    end : WriteErrors
    written : WriteErrors → WriteErrors
    failed : KafkaError → WriteErrors → WriteErrors

unfoldable mutual
  pub is_retriable : KafkaError → Bool
  is_retriable unknown_topic_or_partition = true
  is_retriable leader_not_available = true
  is_retriable not_leader_for_partition = true
  is_retriable request_timed_out = true
  is_retriable (wrapped e) = is_retriable e
  is_retriable (write_errors es) = any_retriable es
  is_retriable (other s) = false

  -- The loop over the entries of a WriteErrors; a nil entry is not retriable.
  pub any_retriable : WriteErrors → Bool
  any_retriable end = false
  any_retriable (written es) = any_retriable es
  any_retriable (failed e es) = is_retriable e || any_retriable es

-- A transient code stands somewhere in the error: at the bottom of its chain, or in an entry.
mutual
  pub data IsTransient : KafkaError → Type 0 where
    topic : IsTransient unknown_topic_or_partition
    leader : IsTransient leader_not_available
    not_leader : IsTransient not_leader_for_partition
    timeout : IsTransient request_timed_out
    inside : {e : KafkaError} → IsTransient e → IsTransient (wrapped e)
    entry : {es : WriteErrors} → HasTransient es → IsTransient (write_errors es)

  pub data HasTransient : WriteErrors → Type 0 where
    first : {e : KafkaError} {es : WriteErrors} → IsTransient e → HasTransient (failed e es)
    after : {e : KafkaError} {es : WriteErrors} → HasTransient es → HasTransient (failed e es)
    skip : {es : WriteErrors} → HasTransient es → HasTransient (written es)

mutual
  unfolding is_retriable any_retriable

  retriable_sound : (e : KafkaError) → is_retriable e ≡ true → IsTransient e
  retriable_sound unknown_topic_or_partition h = topic
  retriable_sound leader_not_available h = leader
  retriable_sound not_leader_for_partition h = not_leader
  retriable_sound request_timed_out h = timeout
  retriable_sound (wrapped e) h = inside (retriable_sound e h)
  retriable_sound (write_errors es) h = entry (any_sound es h)
  retriable_sound (other s) h = cc

  any_sound : (es : WriteErrors) → any_retriable es ≡ true → HasTransient es
  any_sound end h = cc
  any_sound (written es) h = skip (any_sound es h)
  any_sound (failed e es) h = elim (Bool-cases (is_retriable e)) [
    | inl now ↦ first (retriable_sound e now)
    | inr later ↦ after (any_sound es (rw later at h))
  ]

mutual
  unfolding is_retriable any_retriable

  retriable_complete : {e : KafkaError} → IsTransient e → is_retriable e ≡ true
  retriable_complete topic = refl
  retriable_complete leader = refl
  retriable_complete not_leader = refl
  retriable_complete timeout = refl
  retriable_complete (inside t) = retriable_complete t
  retriable_complete (entry t) = any_complete t

  any_complete : {es : WriteErrors} → HasTransient es → any_retriable es ≡ true
  any_complete (first t) = ground (arith, retriable_complete t)
  any_complete (after t) = ground (arith, any_complete t)
  any_complete (skip t) = any_complete t

-- An error is retried exactly when one of the four codes UnknownTopicOrPartition,
-- LeaderNotAvailable, NotLeaderForPartition and RequestTimedOut stands at the bottom of its chain or, through any depth of wrapping and of write errors, in one of its entries.
pub is_retriable_iff : (e : KafkaError) → (is_retriable e ≡ true) ↔ IsTransient e
is_retriable_iff e = (retriable_sound e, retriable_complete)

-- `truncateError`, on the text of the error.
unfoldable pub truncate_error : Text → Text
truncate_error s = if ltb 300 (length s) then take 300 s ++ codes "..." else s

pub length-truncate_error : (s : Text) → length (truncate_error s) ≤ 303
unfolding truncate_error
length-truncate_error s = elim (Bool-cases (ltb 300 (length s))) [
  | inl long ↦
      rw long (omega (arith, length-append {0} (take 300 s) (codes "..."), length-take {0} 300 s))
  | inr short ↦ rw short (ground arith)
]
