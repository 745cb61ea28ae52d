-- ===== src/Buckets/Tests.antt =====
-- Dates, edges and buckets at concrete times.
use midgard_rs.Common.{◌≡◌, refl, none, some, [], ◌∷◌, ok, arith}
use midgard_rs.Common.Int.{pos, ◌+ℤ◌, ◌-ℤ◌, ◌*ℤ◌, div_euclid, rem_euclid, quot, int_laws}
use midgard_rs.Common.Word.{add_i64, sub_i64, mul_i64, wrap}
use midgard_rs.Core.Time.{to_second}
use midgard_rs.Cursor.{BlockCursor, now_second}
use midgard_rs.Buckets.Calendar.{Civil, civil_from_days, days_from_civil}
use midgard_rs.Buckets.Calendar.Gregorian.{
  IsDate, days_in_month, is_leap, civil_from_days-IsDate, civil_from_days-days_from_civil,
  days_from_civil-next_month,
}
use midgard_rs.Buckets.Calendar.RoundTrip.{days_from_civil-civil_from_days}
use midgard_rs.Buckets.Interval.{month, hour, truncate, advance, max_duration, min_duration}
use midgard_rs.Buckets.Interval.Rounding.{Rounds}
use midgard_rs.Buckets.Interval.Rounds.{truncate-Rounds}
use midgard_rs.Buckets.Generate.{
  Window, Buckets, BucketParams, generate, generate_range, generate_count, boundaries, collect,
  restrict_timestamps, last_kept, first_kept,
}
use midgard_rs.Buckets.Generate.Boundaries.{IsCovering, boundaries-IsCovering}
use midgard_rs.Buckets.Generate.Restrict.{IsRestricted, restrict_timestamps-IsRestricted}
use midgard_rs.Buckets.Generate.Limits.{
  IsAnswer, IsRequest, generate-IsAnswer, generate_count-total,
}

abbrev new_year : Civil
new_year = record { year = pos 2024; month = 2; day = 29 }

new_year-IsDate : IsDate new_year
unfolding days_in_month is_leap rem_euclid
new_year-IsDate = record {
  month_from = omega arith;
  month_to = omega arith;
  day_from = omega arith;
  day_to = omega arith;
}

civil_from_days-days_from_civil_example :
    civil_from_days (days_from_civil (pos 2024) 2 29) ≡ new_year
civil_from_days-days_from_civil_example = civil_from_days-days_from_civil new_year new_year-IsDate

days_from_civil-civil_from_days_example :
    (let c = civil_from_days (pos 19782) in days_from_civil c.year c.month c.day) ≡ pos 19782
days_from_civil-civil_from_days_example = days_from_civil-civil_from_days (pos 19782)

civil_from_days-IsDate_example : IsDate (civil_from_days (pos 19782))
civil_from_days-IsDate_example = civil_from_days-IsDate (pos 19782)

days_from_civil-next_month_example :
    days_from_civil (pos 2024) 3 1
    ≡ days_from_civil (pos 2024) 2 1 +ℤ pos (days_in_month (pos 2024) 2)
days_from_civil-next_month_example =
    days_from_civil-next_month (pos 2024) 2 (omega arith) (omega arith)

truncate-Rounds_example : Rounds month (pos 1_709_200_000)
truncate-Rounds_example = truncate-Rounds month (pos 1_709_200_000) (omega arith, omega arith)

abbrev two_hours : Window
two_hours = record { from = pos 0; until = pos 7200 }

boundaries-IsCovering_example :
    (b : Buckets) × (boundaries hour two_hours ≡ ok b) × IsCovering hour two_hours b
unfolding max_duration
boundaries-IsCovering_example =
    boundaries-IsCovering hour two_hours (omega arith, omega arith) (omega arith, omega arith)
      (omega arith, omega int_laws)

restrict_timestamps-IsRestricted_example :
    IsRestricted
      (pos 4000)
      (pos 9000)
      (pos 0 ∷ pos 3600 ∷ pos 7200 ∷ [])
      (restrict_timestamps (pos 4000) (pos 9000) (pos 0 ∷ pos 3600 ∷ pos 7200 ∷ []))
restrict_timestamps-IsRestricted_example =
    restrict_timestamps-IsRestricted (pos 4000) (pos 9000) (pos 0 ∷ pos 3600 ∷ pos 7200 ∷ [])
      (omega arith)

abbrev chain : BlockCursor
chain = record {
  first = record { height = pos 1; timestamp = pos 1_000_000_000 };
  last = record { height = pos 900; timestamp = pos 7_200_000_000_000 };
}

abbrev by_hours : BucketParams
by_hours = record { from = some (pos 0); to = some (pos 7200); count = none; interval = some hour }

abbrev three_hours : BucketParams
three_hours = record {
  from = none;
  to = some (pos 90_000);
  count = some (pos 3);
  interval = some hour;
}

abbrev answer : Buckets
answer = record { timestamps = pos 0 ∷ pos 3600 ∷ pos 7200 ∷ []; interval = some hour }

by_hours-IsRequest : IsRequest by_hours (to_second chain.first.timestamp) (now_second chain)
unfolding to_second now_second quot add_i64 wrap rem_euclid ◌+ℤ◌
by_hours-IsRequest = record {
  first_soon = (omega arith, omega arith);
  now_soon = (omega arith, omega arith);
  from_soon = (omega arith, omega arith);
  to_soon = (omega arith, omega arith);
}

generate-by_hours : generate by_hours chain ≡ ok answer
unfolding generate generate_range boundaries collect restrict_timestamps last_kept first_kept
    truncate advance max_duration min_duration mul_i64 add_i64 sub_i64 wrap div_euclid rem_euclid
    ◌+ℤ◌ ◌-ℤ◌ ◌*ℤ◌ now_second to_second quot
generate-by_hours = refl

generate-IsAnswer_example : IsAnswer hour 400 answer
generate-IsAnswer_example =
    generate-IsAnswer by_hours chain hour answer refl by_hours-IsRequest generate-by_hours

three_hours-IsRequest : IsRequest three_hours (pos 1) (pos 7201)
three_hours-IsRequest = record {
  first_soon = (omega arith, omega arith);
  now_soon = (omega arith, omega arith);
  from_soon = (omega arith, omega arith);
  to_soon = (omega arith, omega arith);
}

generate_count-total_example :
    (b : Buckets) × (generate_count three_hours hour (pos 3) (pos 1) (pos 7201) ≡ ok b)
    × IsAnswer hour 3 b
generate_count-total_example =
    generate_count-total three_hours hour (pos 1) (pos 7201) 3 three_hours-IsRequest (omega arith)
      (omega arith) refl
