-- ===== src/Tests/Storages.antt =====
-- The ClickHouse writer: its tables, and a flush whose second `Send` fails.
use dns_flow.Prelude.{
  ◌≡◌, refl, codes, true, false, Text, List, [], ◌∷◌, Option, none, some, ◌⊎◌, arith,
}
use dns_flow.Prelude.Int.{pos}
use dns_flow.Domain.{EdnsOption}
use dns_flow.Clickhouse.Rows.{raw_row, answer_row, raw_columns, answer_columns}
use dns_flow.Clickhouse.Schema
use dns_flow.Clickhouse.Schema.{dns_raw, Server, raw_schema, answer_schema}
use dns_flow.Clickhouse.Schema.Typed.{column_names, IsRow, rows-IsRow}
use dns_flow.Clickhouse.Schema.Ttl.{passes, Succeeds, Refused, migrate-Ttl}
use dns_flow.Clickhouse.Queue.{
  Writer, new_writer, write, Answers, receive, tick, flush, choose, receive_event,
}
use dns_flow.Clickhouse.Queue.Counts.{Kept}
use dns_flow.Clickhouse.Queue.Kept.{accept, select, Reach, here, next, Reach-Kept}
use dns_flow.Tests.{query_event, address_record, response_event}

abbrev no_json : List EdnsOption → Option Text
no_json opts = none

rows-IsRow_example :
    (column_names raw_schema ≡ raw_columns)
    × IsRow raw_schema (raw_row no_json (pos 0) response_event)
    × (column_names answer_schema ≡ answer_columns)
    × IsRow answer_schema (answer_row (pos 0) response_event (codes "an") address_record)
rows-IsRow_example =
    rows-IsRow no_json (pos 0) response_event (codes "an") address_record (omega arith)

abbrev keep_week : Schema.Config
keep_week = record {
  hosts = codes "db:9000" ∷ [];
  database = codes "dns";
  username = [];
  password = [];
  compression = true;
  pool_size = pos 4;
  ttl_days = pos 7;
}

-- A server with the database and none of the tables.
abbrev server : Server
server = record {
  connects = true;
  pings = true;
  database_count = 1;
  creates_database = false;
  reconnects = true;
  executes = λ q. true;
  raw_count = some 0;
  answers_count = none;
}

migrate-Ttl_example :
    ((passes server ≡ true)
      × Succeeds keep_week server false dns_raw none (Schema.migrate keep_week server))
    ⊎ ((passes server ≡ false)
        × Refused keep_week false dns_raw none (Schema.migrate keep_week server))
migrate-Ttl_example = migrate-Ttl keep_week server false dns_raw none

-- The driver accepts all but the second `Send`.
abbrev answers : Answers
answers = record {
  driver = record {
    connected = true;
    prepares_raw = true;
    prepares_answers = true;
    raw_ok = λ n. true;
    answer_ok = λ n. true;
    sends_raw = true;
    sends_answers = false;
  };
  clock = λ i. pos i;
}

abbrev started : Writer
started = record new_writer { running = true }

abbrev queued : Writer
queued = write query_event started

abbrev received : Writer
received = receive_event no_json answers query_event [] queued

flushed : Reach no_json started (flush no_json answers received)
unfolding new_writer write receive_event choose
flushed =
    next (next (next here (accept query_event)) (select receive answers refl refl))
      (select tick answers refl refl)

Reach-Kept_example : Kept no_json (flush no_json answers received)
Reach-Kept_example = Reach-Kept no_json flushed
