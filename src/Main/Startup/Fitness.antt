-- ===== src/Main/Startup/Fitness.antt =====
-- cmd/dns-flow/main.go: the start with a configuration that passes `Validate`.
use dns_flow.Prelude.{◌≡◌, true, false, ◌⊎◌}
use dns_flow.Prelude.Int.{pos, ltb_ℤ}
use dns_flow.Prelude.Outcome.{Outcome}
use dns_flow.Config.{Config}
use dns_flow.Kafka.Topic.Fitness

abbrev pub Fit : Config → Type 0
Fit cfg =
    (ltb_ℤ cfg.kafka.producer.batch_size (pos 0) ≡ false)
    × (ltb_ℤ (pos 0) cfg.kafka.producer.flush_interval ≡ true)
    × (ltb_ℤ cfg.pipeline.queue_size (pos 0) ≡ false)

abbrev pub Unfit : Config → Type 0
Unfit cfg =
    (ltb_ℤ cfg.kafka.producer.batch_size (pos 0) ≡ true)
    ⊎ (ltb_ℤ (pos 0) cfg.kafka.producer.flush_interval ≡ false)
    ⊎ (ltb_ℤ cfg.pipeline.queue_size (pos 0) ≡ true)
