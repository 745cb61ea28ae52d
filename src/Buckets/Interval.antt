-- ===== src/Buckets/Interval.antt =====
-- crates/midgard-db/src/buckets.rs: the intervals, and the calendar edges that they round to.
pub mod Months
pub mod Edges
pub mod Rounding
pub mod Spans
pub mod Steps
pub mod Rounds
use midgard_rs.Common.{ℕ, ◌+◌, ◌-◌, ◌*◌, ◌/◌, Option, none, some, ltb, if◌then◌else◌}
use midgard_rs.Common.Int.{ℤ, pos, ◌+ℤ◌, ◌-ℤ◌, ◌*ℤ◌, div_euclid, rem_euclid}
use midgard_rs.Common.Word.{add_i64, sub_i64, mul_i64}
use midgard_rs.Common.Text.{Text, codes, text_eq, to_ascii_lowercase}
use midgard_rs.Core.Time.{Second}
use midgard_rs.Buckets.Calendar.{Civil, civil_from_epoch_seconds, epoch_seconds_from_civil}

pub data Interval : Type 0 where
  min5 hour day week month quarter year : Interval

-- `Interval::parse`, on the lower-case text.
unfoldable pub parse_lower : Text → Option Interval
unfolding text_eq
parse_lower s =
    if text_eq s (codes "5min")
    then some min5
    else if text_eq s (codes "hour")
    then some hour
    else if text_eq s (codes "day")
    then some day
    else if text_eq s (codes "week")
    then some week
    else if text_eq s (codes "month")
    then some month
    else if text_eq s (codes "quarter")
    then some quarter
    else if text_eq s (codes "year")
    then some year
    else none

unfoldable pub parse : Text → Option Interval
unfolding parse_lower to_ascii_lowercase
parse s = parse_lower (to_ascii_lowercase s)

unfoldable pub name : Interval → Text
name min5 = codes "5min"
name hour = codes "hour"
name day = codes "day"
name week = codes "week"
name month = codes "month"
name quarter = codes "quarter"
name year = codes "year"

unfoldable pub min_duration : Interval → ℕ
min_duration min5 = 300
min_duration hour = 3_600
min_duration day = 86_400
min_duration week = 7 * 86_400
min_duration month = 28 * 86_400
min_duration quarter = 3 * 28 * 86_400
min_duration year = 365 * 86_400

unfoldable pub max_duration : Interval → ℕ
max_duration min5 = 300
max_duration hour = 3_600
max_duration day = 86_400
max_duration week = 7 * 86_400
max_duration month = 31 * 86_400
max_duration quarter = 3 * 31 * 86_400
max_duration year = 366 * 86_400

-- `s.div_euclid(d) * d`
abbrev pub floor_to : ℕ → ℤ → ℤ
floor_to d s = mul_i64 (div_euclid s d) d

-- The month that the arms of `truncate` leave.
abbrev pub first_month : Interval → ℕ → ℕ
first_month quarter m = (m - 1) / 3 * 3 + 1
first_month year m = 1
first_month _ m = m

abbrev pub truncate_civil : ℤ → ℕ → ℤ
truncate_civil y m =
    if ltb m 1 then epoch_seconds_from_civil (y -ℤ pos 1) 1 1 else epoch_seconds_from_civil y m 1

unfoldable pub truncate_months : Interval → ℤ → ℤ
truncate_months i s =
    let c = civil_from_epoch_seconds s in truncate_civil c.year (first_month i c.month)

unfoldable pub truncate : Interval → Second → Second
unfolding truncate_months
truncate min5 s = floor_to 300 s
truncate hour s = floor_to 3_600 s
truncate day s = floor_to 86_400 s
truncate week s = sub_i64 (floor_to (7 * 86_400) (add_i64 s (pos (3 * 86_400)))) (pos (3 * 86_400))
truncate i s = truncate_months i s

-- `step` of `advance`; the other intervals do not ask for it.
abbrev pub month_step : Interval → ℕ
month_step month = 1
month_step quarter = 3
month_step year = 12
month_step _ = 0

-- The months of a year and month `c` and a number of months more.
unfoldable pub advance_months : Interval → ℤ → ℤ
advance_months i t =
    let c = civil_from_epoch_seconds t in
    let total = c.year *ℤ 12 +ℤ pos (c.month - 1) +ℤ pos (month_step i) in
    epoch_seconds_from_civil (div_euclid total 12) (rem_euclid total 12 + 1) 1

unfoldable pub advance : Interval → Second → Second
unfolding advance_months min_duration
advance min5 t = add_i64 t (pos (min_duration min5))
advance hour t = add_i64 t (pos (min_duration hour))
advance day t = add_i64 t (pos (min_duration day))
advance week t = add_i64 t (pos (min_duration week))
advance i t = advance_months i t
