-- ===== src/Buckets/Interval/Rounds.antt =====
-- `truncate` rounds a time down to an edge, and `advance` goes on to the next one.
use midgard_rs.Common.{refl, arith}
use midgard_rs.Core.Time.{Second}
use midgard_rs.Buckets.Interval.{
  Interval, min5, hour, day, week, month, quarter, year, truncate, advance, min_duration,
  max_duration,
}
use midgard_rs.Buckets.Interval.Rounding.{IsTime, Rounds}
use midgard_rs.Buckets.Interval.Spans.{month-IsSpan, quarter-IsSpan, year-IsSpan, months-Rounds}
use midgard_rs.Buckets.Interval.Steps.{
  min5-IsStep, hour-IsStep, day-IsStep, week-IsStep, steps-Rounds, floor_to-steps, week-steps,
}

-- For every interval and a time within 2^61 seconds of the epoch, `truncate` gives an edge at or
-- before the time, `advance` goes on to an edge after the time, the two are between the shortest
-- and the longest duration of the interval apart, and `truncate` leaves both as they are.
pub truncate-Rounds : (i : Interval) (s : Second) → IsTime s → Rounds i s
unfolding truncate advance min_duration max_duration
truncate-Rounds min5 s t =
    steps-Rounds min5 0 300 min5-IsStep (omega arith) refl refl
      (λ z r. floor_to-steps 300 z (omega arith) (omega arith) r) (λ z. refl) s t
truncate-Rounds hour s t =
    steps-Rounds hour 0 3600 hour-IsStep (omega arith) refl refl
      (λ z r. floor_to-steps 3600 z (omega arith) (omega arith) r) (λ z. refl) s t
truncate-Rounds day s t =
    steps-Rounds day 0 86400 day-IsStep (omega arith) refl refl
      (λ z r. floor_to-steps 86400 z (omega arith) (omega arith) r) (λ z. refl) s t
truncate-Rounds week s t =
    steps-Rounds week 259200 604800 week-IsStep (omega arith) refl refl week-steps (λ z. refl) s t
truncate-Rounds month s t = months-Rounds month month-IsSpan (λ z. refl) (λ z. refl) s t
truncate-Rounds quarter s t = months-Rounds quarter quarter-IsSpan (λ z. refl) (λ z. refl) s t
truncate-Rounds year s t = months-Rounds year year-IsSpan (λ z. refl) (λ z. refl) s t
