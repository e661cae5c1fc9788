-- ===== src/Clickhouse/Schema.antt =====
-- internal/adapter/outbound/clickhouse/writer.go: `Migrate` and the statements that it runs.
--
-- A statement of SQL is a value; each is run in the configured database. Parameters: the answers of
-- the server. A count that cannot be read is `none`, or 0 where the code drops the error. The
-- failures of the table statements are only logged.
pub mod Typed
pub mod Ttl
use dns_flow.Prelude.{
  ℕ, zero, suc, Text, codes, Bool, true, false, not, List, [], ◌∷◌, ◌++◌, Option, none, some, ◌==◌,
  if◌then◌else◌,
}
use dns_flow.Prelude.Int.{ℤ, pos, ltb_ℤ}

pub record Config : Type 0 where
  pub hosts : List Text
  pub database : Text
  pub username : Text
  pub password : Text
  pub compression : Bool
  pub pool_size : ℤ
  pub ttl_days : ℤ

pub data ColumnType : Type 0 where
  string uint8 uint16 uint32 int64 float64 date_time : ColumnType

pub data Table : Type 0 where
  dns_raw dns_answers : Table

pub data Statement : Type 0 where
  create_database : (name : Text) → Statement
  create_table : Table → List (Text × ColumnType) → (ttl_days : Option ℤ) → Statement
  add_column : Table → Text → ColumnType → Statement
  modify_ttl : Table → (days : ℤ) → Statement
  remove_ttl : Table → Statement

abbrev pub raw_schema : List (Text × ColumnType)
raw_schema =
    (codes "timestamp", date_time)
    ∷ (codes "query_ip", string)
    ∷ (codes "query_port", uint16)
    ∷ (codes "response_ip", string)
    ∷ (codes "response_port", uint16)
    ∷ (codes "family", string)
    ∷ (codes "protocol", string)
    ∷ (codes "qname", string)
    ∷ (codes "qtype", string)
    ∷ (codes "qclass", string)
    ∷ (codes "rcode", string)
    ∷ (codes "opcode", uint8)
    ∷ (codes "length", uint16)
    ∷ (codes "dns_id", uint16)
    ∷ (codes "qr", uint8)
    ∷ (codes "tc", uint8)
    ∷ (codes "aa", uint8)
    ∷ (codes "ra", uint8)
    ∷ (codes "ad", uint8)
    ∷ (codes "rd", uint8)
    ∷ (codes "cd", uint8)
    ∷ (codes "qdcount", uint16)
    ∷ (codes "ancount", uint16)
    ∷ (codes "nscount", uint16)
    ∷ (codes "arcount", uint16)
    ∷ (codes "malformed", uint8)
    ∷ (codes "edns_version", uint8)
    ∷ (codes "edns_udp_size", uint16)
    ∷ (codes "edns_rcode", uint8)
    ∷ (codes "edns_dnssec_ok", uint8)
    ∷ (codes "edns_client_subnet", string)
    ∷ (codes "client_country", string)
    ∷ (codes "client_city", string)
    ∷ (codes "client_asn", string)
    ∷ (codes "latency", float64)
    ∷ (codes "latency_ms", int64)
    ∷ (codes "dnstap_identity", string)
    ∷ (codes "dnstap_version", string)
    ∷ (codes "dnstap_type", string)
    ∷ (codes "dnstap_operation", string)
    ∷ (codes "socket_ip", string)
    ∷ (codes "socket_port", uint16)
    ∷ (codes "policy_rule", string)
    ∷ (codes "policy_type", string)
    ∷ (codes "policy_match", string)
    ∷ (codes "policy_value", string)
    ∷ (codes "http_protocol", string)
    ∷ (codes "peer_name", string)
    ∷ (codes "query_zone", string)
    ∷ (codes "extra", string)
    ∷ (codes "edns_options", string)
    ∷ []

abbrev pub answer_schema : List (Text × ColumnType)
answer_schema =
    (codes "timestamp", date_time)
    ∷ (codes "query_ip", string)
    ∷ (codes "qname", string)
    ∷ (codes "answer_name", string)
    ∷ (codes "rdatatype", string)
    ∷ (codes "rdata", string)
    ∷ (codes "ttl", uint32)
    ∷ (codes "section", string)
    ∷ (codes "answer_country", string)
    ∷ (codes "answer_city", string)
    ∷ (codes "answer_asn", string)
    ∷ []

-- What the server answers. `database_count` stays 0 where its query fails; `executes` says whether a
-- statement on the tables, each of which is sent once, succeeds.
pub record Server : Type 0 where
  pub connects : Bool
  pub pings : Bool
  pub database_count : ℕ
  pub creates_database : Bool
  pub reconnects : Bool
  pub executes : Statement → Bool
  pub raw_count : Option ℕ
  pub answers_count : Option ℕ

pub data MigrateError : Type 0 where
  connect_failed ping_failed create_failed reconnect_failed : MigrateError

-- The statements that were sent, each with whether it succeeded, the error, and whether the flusher
-- was started.
pub record Migrated : Type 0 where
  pub statements : List (Statement × Bool)
  pub error : Option MigrateError
  pub started : Bool

abbrev pub is_missing : Option ℕ → Bool
is_missing none = true
is_missing (some n) = n == 0

unfoldable pub migrate_needed : Server → Bool
migrate_needed s = if is_missing s.raw_count then true else is_missing s.answers_count

-- The two loops over the statements on the tables; a failure is only logged.
unfoldable pub exec_all : (Statement → Bool) → List Statement → List (Statement × Bool)
exec_all executes [] = []
exec_all executes (q ∷ qs) = (q, executes q) ∷ exec_all executes qs

module _ (cfg : Config) where
  unfoldable pub ttl_clause : Option ℤ
  ttl_clause = if ltb_ℤ (pos 0) cfg.ttl_days then some cfg.ttl_days else none

  unfoldable pub create_queries : List Statement
  unfolding ttl_clause
  create_queries =
      create_table dns_raw raw_schema ttl_clause
      ∷ create_table dns_answers answer_schema ttl_clause
      ∷ []

  unfoldable pub ttl_queries : List Statement
  ttl_queries =
      if ltb_ℤ (pos 0) cfg.ttl_days
      then modify_ttl dns_raw cfg.ttl_days ∷ modify_ttl dns_answers cfg.ttl_days ∷ []
      else remove_ttl dns_raw ∷ remove_ttl dns_answers ∷ []

  -- The columns that later versions added.
  abbrev pub column_queries : List Statement
  column_queries =
      add_column dns_raw (codes "malformed") uint8
      ∷ add_column dns_raw (codes "dnstap_type") string
      ∷ add_column dns_raw (codes "socket_ip") string
      ∷ add_column dns_raw (codes "socket_port") uint16
      ∷ add_column dns_raw (codes "edns_rcode") uint8
      ∷ add_column dns_raw (codes "latency_ms") int64
      ∷ add_column dns_raw (codes "policy_rule") string
      ∷ add_column dns_raw (codes "policy_type") string
      ∷ add_column dns_raw (codes "policy_match") string
      ∷ add_column dns_raw (codes "policy_value") string
      ∷ add_column dns_raw (codes "peer_name") string
      ∷ add_column dns_raw (codes "http_protocol") string
      ∷ add_column dns_raw (codes "query_zone") string
      ∷ add_column dns_raw (codes "extra") string
      ∷ add_column dns_answers (codes "answer_country") string
      ∷ add_column dns_answers (codes "answer_asn") string
      ∷ add_column dns_answers (codes "query_ip") string
      ∷ add_column dns_answers (codes "answer_city") string
      ∷ add_column dns_raw (codes "edns_options") string
      ∷ []

  unfoldable pub alter_queries : List Statement
  unfolding ttl_queries
  alter_queries = column_queries ++ ttl_queries

  -- The part of `Migrate` in the target database.
  unfoldable pub migrate_tables : Server → List (Statement × Bool) → Migrated
  unfolding create_queries alter_queries migrate_needed exec_all
  migrate_tables s done =
      if s.reconnects
      then record {
        statements =
            done
            ++ exec_all s.executes (if migrate_needed s then create_queries else [])
            ++ exec_all s.executes alter_queries;
        error = none;
        started = true;
      }
      else record { statements = done; error = some reconnect_failed; started = false }

  unfoldable pub migrate : Server → Migrated
  unfolding migrate_tables
  migrate s =
      if not s.connects
      then record { statements = []; error = some connect_failed; started = false }
      else if not s.pings
      then record { statements = []; error = some ping_failed; started = false }
      else if s.database_count == 0
      then (if s.creates_database
          then migrate_tables s ((create_database cfg.database, true) ∷ [])
          else record {
            statements = (create_database cfg.database, false) ∷ [];
            error = some create_failed;
            started = false;
          })
      else migrate_tables s []
