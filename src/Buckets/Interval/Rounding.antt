-- ===== src/Buckets/Interval/Rounding.antt =====
-- What it means that `truncate` and `advance` round to the edges of an interval.
use midgard_rs.Common.{◌^◌, ◌≤◌, ◌≡◌}
use midgard_rs.Common.Int.{pos, pos_part, neg_part, ◌+ℤ◌, ◌≤ℤ◌, ◌<ℤ◌}
use midgard_rs.Core.Time.{Second}
use midgard_rs.Buckets.Interval.{Interval, truncate, advance, min_duration, max_duration}

-- A time that is far from the ends of i64.
abbrev pub IsTime : Second → Type 0
IsTime s = (pos_part s ≤ 2 ^ 61) × (neg_part s ≤ 2 ^ 61)

pub record Rounds (i : Interval) (s : Second) : Type 0 where
  pub below : truncate i s ≤ℤ s
  pub above : s <ℤ advance i (truncate i s)
  pub shortest : truncate i s +ℤ pos (min_duration i) ≤ℤ advance i (truncate i s)
  pub longest : advance i (truncate i s) ≤ℤ truncate i s +ℤ pos (max_duration i)
  pub fixed : truncate i (truncate i s) ≡ truncate i s
  pub next_fixed : truncate i (advance i (truncate i s)) ≡ advance i (truncate i s)
