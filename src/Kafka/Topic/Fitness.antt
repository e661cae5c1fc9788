-- ===== src/Kafka/Topic/Fitness.antt =====
-- internal/adapter/outbound/kafka/producer.go: `Migrate` with a topic that is ready.
use dns_flow.Prelude.{
  ◌≡◌, ◌≢◌, refl, Text, Bool-cases, true, false, List, [], ◌∷◌, none, ◌⊎◌, inl, inr,
}
use dns_flow.Prelude.Int.{pos, ltb_ℤ}
use dns_flow.Prelude.Outcome.{returned, panicked, Outcome}
use dns_flow.Kafka.Producer.{Config, Producer, start_flusher}
use dns_flow.Kafka.Topic.{Broker, MigrateError, Ready, ensure_topic, ready_after, migrate}

-- The flusher can be started: its capacity is not negative, and its interval is positive.
abbrev pub Fit : Config → Type 0
Fit cfg = (ltb_ℤ cfg.batch_size (pos 0) ≡ false) × (ltb_ℤ (pos 0) cfg.flush_interval ≡ true)

abbrev pub Unfit : Config → Type 0
Unfit cfg = (ltb_ℤ cfg.batch_size (pos 0) ≡ true) ⊎ (ltb_ℤ (pos 0) cfg.flush_interval ≡ false)

module _ {E : Type 0} (broker : Broker E) (cfg : Config) where
  abbrev pub Judged : Outcome (MigrateError E ⊎ Ready E) → Type 0
  Judged r =
      ((r ≡ panicked) × Unfit cfg) ⊎ ((ready : Ready E) × (r ≡ returned (inr ready)) × Fit cfg)

  ready_after-Judged : (p : Producer) → Judged (ready_after broker cfg (start_flusher cfg p))
  unfolding start_flusher ready_after
  ready_after-Judged p = elim (Bool-cases (ltb_ℤ cfg.batch_size (pos 0))) [
    | inl negative ↦ rw negative (inl (refl, inl refl))
    | inr fine ↦ elim (Bool-cases (ltb_ℤ (pos 0) cfg.flush_interval)) [
      | inl positive ↦ rw (fine, positive) (inr (_, refl, (refl, refl)))
      | inr never ↦ rw (fine, never) (inl (refl, inr refl))
    ]
  ]

  pub migrate-Judged :
      (brokers : List Text) (p : Producer)
      → cfg.brokers ≡ brokers
      → brokers ≢ []
      → ensure_topic broker cfg.topic ≡ none
      → Judged (migrate broker cfg p)
  unfolding migrate
  migrate-Judged [] p e some_broker ready = absurd (some_broker refl)
  migrate-Judged (first ∷ rest) p e some_broker ready =
      rw (e, ready, migrate) (ready_after-Judged p)
