-- ===== src/Kafka/Topic/Polls.antt =====
-- internal/adapter/outbound/kafka/producer.go: the polling of `Migrate`.
use dns_flow.Prelude.{
  ℕ, zero, suc, ◌+◌, ◌≤◌, ◌<◌, ◌≡◌, ◌↔◌, refl, Text, Bool, Bool-cases, true, false, Option, none,
  some, ◌⊎◌, inl, inr, ◌==◌, ==_iff, arith,
}
use dns_flow.Kafka.Topic.{
  Broker, topic_found, topic_ready, topic_outcome, answers, poll, ensure_topic,
}

module _ {E P : Type 0} where
  outcome_sound :
      (found : Bool) (create : Option E) (polled : Bool)
      → (polled ≡ true → P)
      → topic_outcome found create polled ≡ none
      → (found ≡ true) ⊎ ((create ≡ none) × P)
  unfolding topic_outcome
  outcome_sound true create polled f h = inl refl
  outcome_sound false (some e) polled f h = cc
  outcome_sound false none true f h = inr (refl, f refl)
  outcome_sound false none false f h = cc

  outcome_complete :
      (found : Bool) (create : Option E) (polled : Bool)
      → (P → polled ≡ true)
      → (found ≡ true) ⊎ ((create ≡ none) × P)
      → topic_outcome found create polled ≡ none
  unfolding topic_outcome
  outcome_complete true create polled f h = refl
  outcome_complete false create polled f (inl h) = cc
  outcome_complete false create polled f (inr (h, ready)) = rw (h, f ready) refl

module _ {E : Type 0} (broker : Broker E) (topic : Text) where
  -- A polling round of the `n` from call `a` on finds the topic ready.
  abbrev pub ReadyWithin : ℕ → ℕ → Type 0
  ReadyWithin a n =
      (k : ℕ) × (a ≤ k) × (k < a + n) × (answers (topic_ready topic) (broker.metadata k) ≡ true)

  poll_sound : (n a : ℕ) → poll broker topic n a ≡ true → ReadyWithin a n
  unfolding poll
  poll_sound zero a h = cc
  poll_sound (suc n) a h = elim (Bool-cases (answers (topic_ready topic) (broker.metadata a))) [
    | inl now ↦ (a, omega arith, omega arith, now)
    | inr later ↦
        let ih = poll_sound n (suc a) (rw later at h) in (ih.0, omega arith, omega arith, ih.3)
  ]

  poll_complete : (n a : ℕ) → ReadyWithin a n → poll broker topic n a ≡ true
  unfolding poll
  poll_complete zero a (k, from, to, h) = absurd (omega arith)
  poll_complete (suc n) a (k, from, to, h) =
      elim (Bool-cases (answers (topic_ready topic) (broker.metadata a))) [
        | inl now ↦ rw now
        | inr later ↦ rw later (poll_complete n (suc a) (k, past a k later h from, omega arith, h))
      ]
    where
      past :
          (a k : ℕ)
          → answers (topic_ready topic) (broker.metadata a) ≡ false
          → answers (topic_ready topic) (broker.metadata k) ≡ true
          → a ≤ k
          → suc a ≤ k
      past a k f t from = elim (Bool-cases (a == k)) [
        | inl same ↦ let e = (==_iff a k).0 same in absurd (cc)
        | inr other ↦ ground arith
      ]

  -- The topic counts as ready exactly when the first answer of the broker names it without an
  -- error, or when its creation succeeds and one of the next ten answers names it without one.
  pub ensure_topic_iff : (ensure_topic broker topic ≡ none) ↔ (
      (answers (topic_found topic) (broker.metadata 0) ≡ true)
      ⊎ ((broker.create ≡ none) × ReadyWithin 1 10))
  unfolding ensure_topic
  ensure_topic_iff = (
    λ h. outcome_sound _ broker.create _ (poll_sound 10 1) h,
    λ h. outcome_complete _ broker.create _ (poll_complete 10 1) h,
  )
