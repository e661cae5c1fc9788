-- ===== src/Dnstap/Times.antt =====
-- internal/adapter/inbound/dnstap/server.go: the timestamp and the latency of a message.
--
-- A time.Time is its distance from the epoch in nanoseconds, so the wrap-around of the seconds
-- inside it, far beyond the year 10^11, is not in the model. `Time.Sub` saturates at the ends of
-- int64, and `Milliseconds` cuts the fraction off.
use dns_flow.Prelude.{ℕ, ◌+◌, ◌*◌, ◌-◌, ◌/◌, ◌^◌, suc, ltb, if◌then◌else◌}
use dns_flow.Prelude.Int.{ℤ, pos, negsuc, ◌-ℤ◌, ltb_ℤ, wrap_i64}
use dns_flow.Domain.{DnsTapInfo, duration_seconds}
use dns_flow.Dnstap.Message.{TapMessage}

abbrev pub nano : ℕ
nano = 1000000000

-- `time.Unix(int64(sec), int64(nsec))`
unfoldable pub unix : ℕ → ℕ → ℤ
unix sec nsec = elim (wrap_i64 (pos sec)) [
  | pos s ↦ pos (s * nano + nsec)
  | negsuc s ↦ pos nsec -ℤ pos (suc s * nano)
]

abbrev pub max_i64 : ℤ
max_i64 = pos (2 ^ 63 - 1)

abbrev pub min_i64 : ℤ
min_i64 = negsuc (2 ^ 63 - 1)

-- `Time.Sub`
unfoldable pub sub : ℤ → ℤ → ℤ
sub t u =
    let d = t -ℤ u in if ltb_ℤ max_i64 d then max_i64 else if ltb_ℤ d min_i64 then min_i64 else d

-- `Duration.Milliseconds`
unfoldable pub milliseconds : ℤ → ℤ
milliseconds (pos n) = pos (n / 1000000)
milliseconds (negsuc n) = if ltb n 999999 then pos 0 else negsuc (suc n / 1000000 - 1)

unfoldable pub set_times : ℤ → TapMessage → DnsTapInfo → DnsTapInfo
set_times now m t =
    if ltb 0 m.response_time_sec
    then (let ts = unix m.response_time_sec m.response_time_nsec in
        if ltb 0 m.query_time_sec
        then (let dur = sub ts (unix m.query_time_sec m.query_time_nsec) in
            record t {
              timestamp = ts;
              latency = duration_seconds dur;
              latency_ms = milliseconds dur;
            })
        else record t { timestamp = ts })
    else if ltb 0 m.query_time_sec
    then record t { timestamp = unix m.query_time_sec m.query_time_nsec }
    else record t { timestamp = now }
