-- ===== src/Tests/Connections.antt =====
-- InfluxDB v2, the configurations of the main program, a reload, and a connection of dnstap.
use dns_flow.Domain.{Float64, duration_seconds}
use dns_flow.Prelude.{
  ◌≡◌, ◌≢◌, refl, codes, text_eq, true, false, Text, Bool, List, [], ◌∷◌, ◌++◌, Option, none, some,
  ◌⊎◌, inr,
}
use dns_flow.Prelude.Int.{ℤ, pos, show_int}
use dns_flow.Domain.{DnsRawEvent}
use dns_flow.Config.{Config, ClickHouseOutputConfig, InfluxdbV2OutputConfig, validate, no_output}
use dns_flow.Logger
use dns_flow.Clickhouse.Schema
use dns_flow.Clickhouse.Schema.{dns_raw, Server}
use dns_flow.Clickhouse.Schema.Ttl.{ttl_of}
use dns_flow.Influx.V2.{Request, Response, apply_bucket_retention, measurement}
use dns_flow.Influx.V2.Retention.{Outcome, apply_bucket_retention-Outcome}
use dns_flow.Influx.V2.Posted.{Posted}
use dns_flow.Main.Storages.{
  clickhouse_config, influxdb_v2_config, outputs, join, complete, level_warning, handle_reload,
}
use dns_flow.Main.Reload.{kinds, handle_reload-complete}
use dns_flow.Main.Retention.{migrate-clickhouse_config}
use dns_flow.Dnstap.Message.{Dnstap, inet, udp}
use dns_flow.Dnstap.Decode.{Libraries}
use dns_flow.Dnstap.Server.{stopped, undecoded, handle_conn}
use dns_flow.Dnstap.Server.Events.{rounds_of, events_of, process_events, handle_conn-process_events}
use dns_flow.Tests.{minimal}

abbrev month_of_clickhouse : ClickHouseOutputConfig
month_of_clickhouse = record {
  hosts = codes "db:9000" ∷ [];
  database = codes "dns";
  username = [];
  password = [];
  compression = true;
  pool_size = pos 4;
  ttl_days = pos 30;
}

abbrev server : Server
server = record {
  connects = true;
  pings = true;
  database_count = 0;
  creates_database = true;
  reconnects = true;
  executes = λ q. true;
  raw_count = some 1;
  answers_count = some 1;
}

migrate-clickhouse_config_example :
    ttl_of true dns_raw
      (Schema.migrate (clickhouse_config month_of_clickhouse) server).statements
      (some (pos 30))
    ≡ none
migrate-clickhouse_config_example =
    migrate-clickhouse_config month_of_clickhouse server true dns_raw (some (pos 30)) refl refl

abbrev month_of_influxdb : InfluxdbV2OutputConfig
month_of_influxdb = record {
  url = codes "http://influx:8086";
  org = codes "net";
  bucket = codes "dns";
  token = codes "secret";
  precision = codes "s";
  measurement = codes "dns";
  retention_days = pos 30;
}

abbrev same_text : Text → Text
same_text s = s

abbrev any_url : Text → Bool
any_url s = true

-- A body names one bucket, and the server answers every request.
abbrev one_bucket : Text → Option (List Text)
one_bucket body = some (body ∷ [])

abbrev answer : Request → Option Response
answer request = some (record { status = 200; body = some (codes "b1") })

apply_bucket_retention-Outcome_example :
    Outcome same_text one_bucket any_url answer (influxdb_v2_config month_of_influxdb) (
      apply_bucket_retention same_text one_bucket any_url answer
        (influxdb_v2_config month_of_influxdb))
apply_bucket_retention-Outcome_example =
    apply_bucket_retention-Outcome same_text one_bucket any_url answer
      (influxdb_v2_config month_of_influxdb)

abbrev show_duration : Float64 → Text
show_duration (duration_seconds d) = show_int d

abbrev two_outputs : Config
two_outputs = record minimal {
  server = record { name = codes "sensor"; log_level = codes "debug" };
  outputs = record {
    click_house = some month_of_clickhouse;
    influxdb = none;
    influxdb_v2 = some month_of_influxdb;
    file = none;
  };
}

handle_reload-complete_example :
    (outputs two_outputs ≢ [])
    × (handle_reload (inr two_outputs)
        ≡ complete
            (level_warning (codes "debug"))
            (codes ":6000")
            (codes "broker:9092" ∷ [])
            (join (codes ",") (kinds (outputs two_outputs))))
    × (((level_warning (codes "debug") ≡ true) × (codes "debug" ≢ []))
        ⊎ ((level_warning (codes "debug") ≡ false)
            × ((Logger.init [] (codes "debug")).level ≡ Logger.info)))
unfolding validate no_output text_eq
handle_reload-complete_example = handle_reload-complete [] two_outputs refl

abbrev libraries : Libraries
libraries = record {
  unpack = λ wire. none;
  rcode_to_string = λ n. [];
  type_to_string = λ n. [];
  class_to_string = λ n. [];
  show_ip = λ ip. ip;
  split_host_port = λ s. none;
  atoi = λ s. none;
}

abbrev query_tap : Dnstap
query_tap = record {
  message = some (record {
    type_name = codes "CLIENT_QUERY";
    query_zone = [];
    query_time_sec = 1;
    query_time_nsec = 2;
    response_time_sec = 0;
    response_time_nsec = 0;
    socket_family = inet;
    socket_protocol = udp;
    query_address = codes "10.0.0.7";
    query_port = 5353;
    response_address = [];
    response_port = 53;
    query_message = [];
    response_message = [];
  });
  identity = codes "ns1";
  version = [];
  extra = [];
  type_name = codes "MESSAGE";
}

-- A message with an event, and one without.
abbrev taps : List (Dnstap × ℤ)
taps = (query_tap, pos 5) ∷ (record query_tap { message = none }, pos 6) ∷ []

abbrev keep_event : DnsRawEvent → List DnsRawEvent → List DnsRawEvent
keep_event event events = event ∷ events

handle_conn-process_events_example :
    (handle_conn libraries keep_event [] true (rounds_of taps ++ undecoded ∷ stopped ∷ []) []
      ≡ record {
        world = process_events libraries keep_event [] (events_of libraries keep_event [] taps) [];
        is_open = false;
      })
    × (handle_conn libraries keep_event [] false (rounds_of taps ++ undecoded ∷ stopped ∷ []) []
        ≡ record { world = []; is_open = false })
handle_conn-process_events_example =
    handle_conn-process_events libraries keep_event [] taps undecoded (stopped ∷ []) [] (inr refl)
