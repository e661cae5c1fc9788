-- ===== src/Tests/Outputs.antt =====
-- The configuration, the lines of InfluxDB, and the batches of ClickHouse.
use dns_flow.Prelude.{
  ℕ, ◌+◌, ◌≡◌, ◌≢◌, ◌↔◌, refl, codes, text_eq, length, count, true, false, Text, List, [], ◌∷◌,
  ◌++◌, Option, none,
}
use dns_flow.Prelude.Int.{ℤ, pos, show_int}
use dns_flow.Domain.{Float64, duration_seconds, DnsRawEvent, EdnsOption}
use dns_flow.Config.{output_required, no_output, validate}
use dns_flow.Config.Required.{HasOutput, Lacking, validate_iff, validate-Lacking}
use dns_flow.Influx.Line.{tags_of}
use dns_flow.Influx.Line.Inject.{line_breaks, line_breaks-tags_of}
use dns_flow.Clickhouse.Rows.{raw_row, answer_row, raw_columns, answer_columns}
use dns_flow.Clickhouse.Batch.{Driver, flush_batch}
use dns_flow.Clickhouse.Outcomes.{Delivered, flush_batch-Delivered}
use dns_flow.Tests.{minimal, address_record, response_event}

validate_iff_example : (validate minimal ≡ none) ↔ (
    (minimal.server.name ≢ [])
    × (minimal.dnstap.listen ≢ [])
    × (minimal.kafka.brokers ≢ [])
    × (minimal.kafka.topic.raw ≢ [])
    × HasOutput minimal.outputs)
validate_iff_example = validate_iff minimal

validate-Lacking_example : Lacking output_required minimal
unfolding validate no_output text_eq
validate-Lacking_example = validate-Lacking minimal output_required refl

-- An identity with a line break, which is not escaped.
abbrev forged : DnsRawEvent
forged = record response_event {
  dnstap = record response_event.dnstap { identity = codes "a" ++ 10 ∷ codes "b c" };
}

line_breaks-tags_of_example : line_breaks (tags_of forged) ≡ 1 + 0 + 0 + 0 + 0 + 0 + 0
unfolding count
line_breaks-tags_of_example = line_breaks-tags_of forged

-- An identity with bytes that are escaped.
abbrev spaced : DnsRawEvent
spaced = record response_event {
  dnstap = record response_event.dnstap { identity = codes "a, b=c\\" };
}

abbrev show_seconds : Float64 → Text
show_seconds (duration_seconds d) = show_int d

abbrev quote : Text → Text
quote s = b'"' ∷ s ++ b'"' ∷ []

-- The driver refuses the second `Send`.
abbrev driver : Driver
driver = record {
  connected = true;
  prepares_raw = true;
  prepares_answers = true;
  raw_ok = λ n. true;
  answer_ok = λ n. true;
  sends_raw = true;
  sends_answers = false;
}

abbrev no_json : List EdnsOption → Option Text
no_json opts = none

abbrev clock : ℕ → ℤ
clock i = pos i

flush_batch-Delivered_example :
    Delivered driver no_json clock
      (response_event ∷ [])
      (flush_batch driver no_json clock (response_event ∷ []))
flush_batch-Delivered_example =
    flush_batch-Delivered driver no_json clock (response_event ∷ []) refl

rows_fit :
    (length (raw_row no_json (pos 0) response_event) ≡ length raw_columns)
    × (length (answer_row (pos 0) response_event (codes "an") address_record)
        ≡ length answer_columns)
unfolding raw_row answer_row
rows_fit = (refl, refl)
