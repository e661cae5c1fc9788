-- ===== src/Config/Required.antt =====
-- internal/infrastructure/config/config.go: the requirements of `Validate`.
use dns_flow.Prelude.{text_eq_iff, [], none, some, ◌≡◌, ◌≢◌, ◌↔◌, ◌⊎◌, arith}
use dns_flow.Config.{
  Config, OutputsConfig, ConfigError, name_required, listen_required, brokers_required,
  raw_topic_required, output_required, validate,
}

-- Some output is configured.
abbrev pub HasOutput : OutputsConfig → Type 0
HasOutput o =
    (o.click_house ≢ none) ⊎ (o.influxdb ≢ none) ⊎ (o.influxdb_v2 ≢ none) ⊎ (o.file ≢ none)

-- What the errors of `Validate` say, in the order in which they are tested.
abbrev pub Lacking : ConfigError → Config → Type 0
Lacking (ConfigError.read_failed path) c = ⊥
Lacking ConfigError.parse_failed c = ⊥
Lacking name_required c = c.server.name ≡ []
Lacking listen_required c = (c.server.name ≢ []) × (c.dnstap.listen ≡ [])
Lacking brokers_required c = (c.server.name ≢ []) × (c.dnstap.listen ≢ []) × (c.kafka.brokers ≡ [])
Lacking raw_topic_required c =
    (c.server.name ≢ [])
    × (c.dnstap.listen ≢ [])
    × (c.kafka.brokers ≢ [])
    × (c.kafka.topic.raw ≡ [])
Lacking output_required c =
    (c.server.name ≢ [])
    × (c.dnstap.listen ≢ [])
    × (c.kafka.brokers ≢ [])
    × (c.kafka.topic.raw ≢ [])
    × (c.outputs.click_house ≡ none)
    × (c.outputs.influxdb ≡ none)
    × (c.outputs.influxdb_v2 ≡ none)
    × (c.outputs.file ≡ none)

-- A configuration passes exactly when the server's name, the listen address, the list of brokers
-- and the raw topic are not empty and at least one of the four outputs is configured.
pub validate_iff :
    (c : Config)
    → (validate c ≡ none) ↔ (
        (c.server.name ≢ [])
        × (c.dnstap.listen ≢ [])
        × (c.kafka.brokers ≢ [])
        × (c.kafka.topic.raw ≢ [])
        × HasOutput c.outputs)
unfolding validate
validate_iff c = ground (
  arith,
  text_eq_iff c.server.name [],
  text_eq_iff c.dnstap.listen [],
  text_eq_iff c.kafka.topic.raw [],
)

-- The error of `Validate` names the first thing that is missing, in the order server name, listen
-- address, brokers, raw topic, outputs: this one is empty, and those before it are not.
pub validate-Lacking : (c : Config) (e : ConfigError) → validate c ≡ some e → Lacking e c
unfolding validate
validate-Lacking c name_required h = ground (
  arith,
  text_eq_iff c.server.name [],
  text_eq_iff c.dnstap.listen [],
  text_eq_iff c.kafka.topic.raw [],
)
validate-Lacking c e h = ground (
  arith,
  text_eq_iff c.server.name [],
  text_eq_iff c.dnstap.listen [],
  text_eq_iff c.kafka.topic.raw [],
)
