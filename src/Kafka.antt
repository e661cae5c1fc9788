-- ===== src/Kafka.antt =====
-- The two Kafka adapters: internal/adapter/outbound/kafka/producer.go and
-- internal/adapter/inbound/kafka/consumer.go.
pub mod Errors
pub mod Producer
pub mod Topic
pub mod Consumer
