-- ===== src/Main/Reload.antt =====
-- cmd/dns-flow/main.go and internal/infrastructure/logger/logger.go: what a reload reports of a
-- configuration.
use dns_flow.Prelude.{
  ◌≡◌, ◌≢◌, refl, Text, codes, text_eq, text_eq_iff, Bool-cases, true, false, List, [], ◌∷◌, none,
  ◌⊎◌, inl, inr, arith,
}
use dns_flow.Config.{Config, validate}
use dns_flow.Config.Required.{HasOutput, validate_iff}
use dns_flow.Logger
use dns_flow.Logger.{Level, info}
use dns_flow.Main.Storages.{
  Output, clickhouse, influxdb, influxdb_v2, file, outputs, join, summary_parts, output_summary,
  complete, level_warning, handle_reload,
}

-- What the summary calls a storage.
abbrev pub kind : Output → Text
kind (clickhouse c) = codes "clickhouse"
kind (influxdb c) = codes "influxdb_v1"
kind (influxdb_v2 c) = codes "influxdb_v2"
kind (file c) = codes "file"

abbrev pub kinds : List Output → List Text
kinds [] = []
kinds (o ∷ os) = kind o ∷ kinds os

summary_parts-kinds : (cfg : Config) → summary_parts cfg ≡ kinds (outputs cfg)
unfolding summary_parts outputs
summary_parts-kinds cfg = ground arith

outputs-HasOutput : (cfg : Config) → HasOutput cfg.outputs → outputs cfg ≢ []
unfolding outputs
outputs-HasOutput cfg h = ground arith

parse_level-info : (s : Text) → s ≡ codes "info" → Logger.parse_level s ≡ info
unfolding Logger.parse_level text_eq
parse_level-info s e = rw e refl

-- A level that asks for no restart is the level `info`, and stays so where the logger is made anew.
level_warning-level :
    (env level : Text)
    → ((level_warning level ≡ true) × (level ≢ []))
      ⊎ ((level_warning level ≡ false) × ((Logger.init env level).level ≡ info))
unfolding level_warning Logger.init Logger.to_lower Logger.parse_level text_eq
level_warning-level env [] = inr (refl, refl)
level_warning-level env (c ∷ s) =
    elim (Bool-cases (text_eq (Logger.to_lower (c ∷ s)) (codes "info"))) [
      | inl same ↦ inr (
        rw same refl,
        parse_level-info (Logger.to_lower (c ∷ s))
            ((text_eq_iff (Logger.to_lower (c ∷ s)) (codes "info")).0 same),
      )
      | inr other ↦ inl (rw other refl, cc)
    ]

join_some :
    (os : List Output) (parts : List Text)
    → os ≢ []
    → parts ≡ kinds os
    → elim parts as (λ _. Text) [ [] ↦ codes "none" | p ∷ ps ↦ join (codes ",") (p ∷ ps) ]
      ≡ join (codes ",") (kinds os)
join_some [] parts h e = absurd (h refl)
join_some (o ∷ os) parts h e = rw e refl

-- A reload of a configuration that passes `Validate` reports its listen address, its brokers and,
-- joined by commas, the kinds of the storages that `initStorages` would make of it, in order, of
-- which there is at least one. Whether it asks for a restart depends on the log level alone, and it
-- does, or the level is `info` for a new logger.
pub handle_reload-complete :
    (env : Text) (cfg : Config)
    → validate cfg ≡ none
    → (outputs cfg ≢ [])
      × (handle_reload (inr cfg)
          ≡ complete
              (level_warning cfg.server.log_level)
              cfg.dnstap.listen
              cfg.kafka.brokers
              (join (codes ",") (kinds (outputs cfg))))
      × (((level_warning cfg.server.log_level ≡ true) × (cfg.server.log_level ≢ []))
          ⊎ ((level_warning cfg.server.log_level ≡ false)
              × ((Logger.init env cfg.server.log_level).level ≡ info)))
unfolding handle_reload output_summary
handle_reload-complete env cfg valid =
    let made = outputs-HasOutput cfg ((validate_iff cfg).0 valid).4 in
    (
      made,
      rw (valid, join_some (outputs cfg) (summary_parts cfg) made (summary_parts-kinds cfg)) refl,
      level_warning-level env cfg.server.log_level,
    )
