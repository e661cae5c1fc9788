-- ===== src/Main/Startup.antt =====
-- cmd/dns-flow/main.go: the start of the program and its signals.
--
-- Parameters: `os.Stat`, the loading of the configuration, the answers of the broker, whether
-- `Migrate` of a storage returns nil, and whether the listener opens. There is memory for the buffers.
-- `Run` of the pipeline returns nil. `initGeoIP`, which never ends the start, is in Main.antt.
pub mod Fitness
use dns_flow.Prelude.{Text, Bool, List, [], ◌∷◌, Option, none, some, ◌⊎◌, inl, inr, if◌then◌else◌}
use dns_flow.Prelude.Outcome.{Outcome, returned, panicked}
use dns_flow.Config.{Config, ConfigError, load, validate}
use dns_flow.Kafka.Producer.{new_producer}
use dns_flow.Kafka.Topic.{Broker, MigrateError, Ready, migrate}
use dns_flow.Main.{resolve_config, producer_config}
use dns_flow.Prelude.Int.{pos, ltb_ℤ}
use dns_flow.Main.Storages.{Output, outputs, Reload, handle_reload}

-- Where the start ends: an exit with its reason, or the loop over the signals.
pub data Startup (E : Type 0) : Type 0 where
  usage : Startup E
  load_failed : ConfigError → Startup E
  invalid : ConfigError → Startup E
  kafka_failed : MigrateError E → Startup E
  dnstap_failed : Startup E
  running : Config → Ready E → List (Output × Bool) → Startup E

-- The last loop of `initStorages`: each storage with whether it is ready. One that is not is only
-- logged.
unfoldable pub init_storages : (Output → Bool) → List Output → List (Output × Bool)
init_storages sets_up [] = []
init_storages sets_up (o ∷ os) = (o, sets_up o) ∷ init_storages sets_up os

module _ {E : Type 0} (exists : Text → Bool) (read_file : Text → Option Text)
    (unmarshal : Text → Option Config) (broker : Broker E) (sets_up : Output → Bool)
    (listens : Bool) where
  -- What follows `Migrate` of the producer: `NewPipeline`, whose channel cannot be made for a negative
  -- size, `initStorages`, and the listener.
  unfoldable pub listen : Config → Outcome (MigrateError E ⊎ Ready E) → Outcome (Startup E)
  listen cfg panicked = panicked
  listen cfg (returned (inl e)) = returned (kafka_failed e)
  listen cfg (returned (inr ready)) =
      if ltb_ℤ cfg.pipeline.queue_size (pos 0)
      then panicked
      else returned (
          if listens
          then running cfg ready (init_storages sets_up (outputs cfg))
          else dnstap_failed)

  unfoldable pub connect : Config → Option ConfigError → Outcome (Startup E)
  unfolding listen
  connect cfg (some e) = returned (invalid e)
  connect cfg none = listen cfg (migrate broker (producer_config cfg) new_producer)

  unfoldable pub configure : ConfigError ⊎ Config → Outcome (Startup E)
  unfolding connect
  configure (inl e) = returned (load_failed e)
  configure (inr cfg) = connect cfg (validate cfg)

  -- `arg` is the value of the flag `config`.
  unfoldable pub start_up : (arg : Text) → Outcome (Startup E)
  unfolding configure
  start_up arg = elim (resolve_config exists arg) [
    | none ↦ returned usage
    | some path ↦ configure (load read_file unmarshal path)
  ]

-- SIGHUP, with what `config.Load` returns then, or one of the other signals.
pub data Signal : Type 0 where
  hangup : ConfigError ⊎ Config → Signal
  terminate : Signal

pub data Action : Type 0 where
  reloaded : Reload → Action
  consumer_stopped server_stopped pipeline_shut_down : Action

unfoldable pub handle_signals : List Signal → List Action
handle_signals [] = []
handle_signals (hangup loaded ∷ signals) = reloaded (handle_reload loaded) ∷ handle_signals signals
handle_signals (terminate ∷ signals) = consumer_stopped ∷ server_stopped ∷ pipeline_shut_down ∷ []
