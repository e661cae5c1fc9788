-- ===== src/Clickhouse/Schema/Typed.antt =====
-- internal/adapter/outbound/clickhouse/writer.go: the rows of `flushBatch` against the tables of
-- `Migrate`.
use dns_flow.Prelude.{
  ℕ, ◌^◌, ◌<◌, ◌-◌, ◌%◌, Text, List, [], ◌∷◌, Option, true, false, Bool, ◌≡◌, refl, arith,
}
use dns_flow.Prelude.Int.{ℤ, pos, negsuc, ◌≤ℤ◌}
use dns_flow.Domain.{Float64, DnsRawEvent, Dnsrr, EdnsOption}
use dns_flow.Clickhouse.Rows.{
  Value, text, number, signed, duration, time, raw_columns, answer_columns, raw_row, answer_row,
  bool_to_uint8,
}
use dns_flow.Clickhouse.Schema.{
  ColumnType, string, uint8, uint16, uint32, int64, float64, date_time, raw_schema, answer_schema,
}

abbrev pub IsInt64 : ℤ → Type 0
IsInt64 z = (negsuc (2 ^ 63 - 1) ≤ℤ z) × (z ≤ℤ pos (2 ^ 63 - 1))

abbrev pub column_names : List (Text × ColumnType) → List Text
column_names [] = []
column_names ((name, type) ∷ schema) = name ∷ column_names schema

-- A value that a column of the type holds.
pub data Fits : ColumnType → Value → Type 0 where
  text_string : {t : Text} → Fits string (text t)
  number_uint8 : {n : ℕ} → n < 2 ^ 8 → Fits uint8 (number n)
  number_uint16 : {n : ℕ} → n < 2 ^ 16 → Fits uint16 (number n)
  number_uint32 : {n : ℕ} → n < 2 ^ 32 → Fits uint32 (number n)
  signed_int64 : {z : ℤ} → IsInt64 z → Fits int64 (signed z)
  duration_float64 : {z : Float64} → Fits float64 (duration z)
  time_date_time : {z : ℤ} → Fits date_time (time z)

-- As many values as columns, each of its column's type.
pub data IsRow : List (Text × ColumnType) → List Value → Type 0 where
  end : IsRow [] []
  column :
      {name : Text} {type : ColumnType} {v : Value} {schema : List (Text × ColumnType)}
      {row : List Value}
      → Fits type v
      → IsRow schema row
      → IsRow ((name, type) ∷ schema) (v ∷ row)

Fits-flag : (b : Bool) → Fits uint8 (number (bool_to_uint8 b))
unfolding bool_to_uint8
Fits-flag true = number_uint8 (omega arith)
Fits-flag false = number_uint8 (omega arith)

Fits-byte : (n : ℕ) → Fits uint8 (number (n % 2 ^ 8))
Fits-byte n = number_uint8 (omega arith)

Fits-port : (n : ℕ) → Fits uint16 (number (n % 2 ^ 16))
Fits-port n = number_uint16 (omega arith)

Fits-ttl : (n : ℕ) → Fits uint32 (number (n % 2 ^ 32))
Fits-ttl n = number_uint32 (omega arith)

ruleset typed = (
  end, column, text_string, Fits-flag, Fits-byte, Fits-port, Fits-ttl, signed_int64,
  duration_float64, time_date_time,
)

raw_row-IsRow :
    (marshal : List EdnsOption → Option Text) (ts : ℤ) (event : DnsRawEvent)
    → IsInt64 event.dnstap.latency_ms
    → IsRow raw_schema (raw_row marshal ts event)
unfolding raw_row
raw_row-IsRow marshal ts event bounded = search typed fits 8000 depth 60

answer_row-IsRow :
    (ts : ℤ) (event : DnsRawEvent) (section : Text) (rr : Dnsrr)
    → IsRow answer_schema (answer_row ts event section rr)
unfolding answer_row
answer_row-IsRow ts event section rr = search typed fits 8000 depth 60

-- Where `latency_ms` is an int64, the row that `flushBatch` appends for an event has a value of the
-- column's type for each column with which `Migrate` creates `dns_raw`, and so has the row of an
-- answer for `dns_answers`; and the INSERT statements name just those columns, in the same order.
pub rows-IsRow :
    (marshal : List EdnsOption → Option Text) (ts : ℤ) (event : DnsRawEvent) (section : Text)
    (rr : Dnsrr)
    → IsInt64 event.dnstap.latency_ms
    → (column_names raw_schema ≡ raw_columns)
      × IsRow raw_schema (raw_row marshal ts event)
      × (column_names answer_schema ≡ answer_columns)
      × IsRow answer_schema (answer_row ts event section rr)
rows-IsRow marshal ts event section rr bounded =
    (refl, raw_row-IsRow marshal ts event bounded, refl, answer_row-IsRow ts event section rr)
