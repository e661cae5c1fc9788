-- ===== src/Dnstap/Latency.antt =====
-- internal/adapter/inbound/dnstap/server.go: the latency, in nanoseconds and in milliseconds.
use dns_flow.Prelude.{ℕ, ◌+◌, ◌*◌, ◌^◌, ◌≤◌, ◌<◌, ◌≡◌, refl, lt→ltb, arith}
use dns_flow.Prelude.Int.{ℤ, pos, negsuc, pos_part, neg_part, ◌-ℤ◌, wrap_i64}
use dns_flow.Domain.{DnsTapInfo, duration_seconds}
use dns_flow.Dnstap.Message.{TapMessage}
use dns_flow.Dnstap.Times.{nano, unix, sub, milliseconds, set_times}

unix-pos : (sec nsec : ℕ) → sec < 2 ^ 33 → unix sec nsec ≡ pos (sec * nano + nsec)
unfolding unix wrap_i64
unix-pos sec nsec h = ground arith

sub-pos : (a b : ℕ) → a < 2 ^ 63 → b < 2 ^ 63 → sub (pos a) (pos b) ≡ pos a -ℤ pos b
unfolding sub ◌-ℤ◌
sub-pos a b h k = ground arith

-- The whole milliseconds of a duration: the fraction is cut off towards zero.
abbrev pub Milliseconds : ℤ → ℤ → Type 0
Milliseconds d ms =
    (pos_part ms * 1000000 ≤ pos_part d)
    × (pos_part d < (pos_part ms + 1) * 1000000)
    × (neg_part ms * 1000000 ≤ neg_part d)
    × (neg_part d < (neg_part ms + 1) * 1000000)

milliseconds-Milliseconds : (d : ℤ) → Milliseconds d (milliseconds d)
unfolding milliseconds
milliseconds-Milliseconds (pos n) = omega arith
milliseconds-Milliseconds (negsuc n) = ground arith

-- A message with both times, of less than 2^33 seconds and with less than 10^9 nanoseconds each, is
-- stamped with the time of the response; its latency is the float64 of `Duration.Seconds` for the
-- exact difference of the two times, negative where the response is the earlier one, and
-- `latency_ms` is that difference in whole milliseconds, cut off towards zero.
pub set_times-latency :
    (now : ℤ) (m : TapMessage) (t : DnsTapInfo)
    → 0 < m.response_time_sec
    → 0 < m.query_time_sec
    → m.response_time_sec < 2 ^ 33
    → m.query_time_sec < 2 ^ 33
    → m.response_time_nsec < nano
    → m.query_time_nsec < nano
    → let difference =
        pos (m.response_time_sec * nano + m.response_time_nsec)
        -ℤ pos (m.query_time_sec * nano + m.query_time_nsec) in
      ((set_times now m t).timestamp ≡ pos (m.response_time_sec * nano + m.response_time_nsec))
      × ((set_times now m t).latency ≡ duration_seconds difference)
      × Milliseconds difference (set_times now m t).latency_ms
unfolding set_times
set_times-latency now m t r q rs qs rn qn =
    let ru = unix-pos m.response_time_sec m.response_time_nsec rs in
    let qu = unix-pos m.query_time_sec m.query_time_nsec qs in
    let d =
      sub-pos (m.response_time_sec * nano + m.response_time_nsec)
        (m.query_time_sec * nano + m.query_time_nsec) (omega arith) (omega arith) in
    rw (lt→ltb _ _ r, lt→ltb _ _ q)
      (ru, rw (ru, qu, d) refl, rw (ru, qu, d) (milliseconds-Milliseconds _))
