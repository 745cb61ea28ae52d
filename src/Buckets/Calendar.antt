-- ===== src/Buckets/Calendar.antt =====
-- The calendar arithmetic of crates/midgard-db/src/buckets.rs, after Hinnant's `civil_from_days`.
-- `civil_from_epoch_seconds` and its inverse are split at the day number, which is in ℤ with the
-- years; days of an era and of a year, months and days are never negative and are in ℕ. For a
-- 64-bit number of seconds no sum or product here leaves i64, but for the last product of
-- `epoch_seconds_from_civil`, which wraps.
pub mod RoundTrip
pub mod Gregorian
use midgard_rs.Common.{ℕ, ◌+◌, ◌-◌, ◌*◌, ◌/◌, ltb, leb, if◌then◌else◌}
use midgard_rs.Common.Int.{ℤ, pos, ◌+ℤ◌, ◌-ℤ◌, ◌*ℤ◌, div_euclid, rem_euclid}
use midgard_rs.Common.Word.{mul_i64}

pub record Civil : Type 0 where
  pub year : ℤ
  pub month : ℕ
  pub day : ℕ

-- `yoe` from `doe`, the day of the era.
unfoldable pub year_of_era : ℕ → ℕ
year_of_era doe = (doe - doe / 1460 + doe / 36524 - doe / 146096) / 365

-- The day of the era on which a year of it begins.
abbrev pub year_start : ℕ → ℕ
year_start yoe = 365 * yoe + yoe / 4 - yoe / 100

-- `mp`, the month counted from March, from the day of the year, and its first day.
abbrev pub month_index : ℕ → ℕ
month_index doy = (5 * doy + 2) / 153

abbrev pub month_start : ℕ → ℕ
month_start mp = (153 * mp + 2) / 5

abbrev pub month_of_index : ℕ → ℕ
month_of_index mp = if ltb mp 10 then mp + 3 else mp - 9

abbrev pub index_of_month : ℕ → ℕ
index_of_month month = if ltb 2 month then month - 3 else month + 9

-- `civil_from_epoch_seconds` from the day of the era on: `y` counts years from March.
abbrev pub civil_of_year : ℤ → ℕ → Civil
civil_of_year y doy =
    let mp = month_index doy in
    let m = month_of_index mp in
    record { year = if leb m 2 then y +ℤ pos 1 else y; month = m; day = doy - month_start mp + 1 }

unfoldable pub civil_from_days : ℤ → Civil
civil_from_days days =
    let z = days +ℤ pos 719468 in
    let era = div_euclid z 146097 in
    let doe = rem_euclid z 146097 in
    let yoe = year_of_era doe in civil_of_year (pos yoe +ℤ era *ℤ 400) (doe - year_start yoe)

unfoldable pub civil_from_epoch_seconds : ℤ → Civil
civil_from_epoch_seconds seconds = civil_from_days (div_euclid seconds 86400)

-- The day number of a date; `yoe` is the remainder `y - era * 400`.
unfoldable pub days_from_civil : ℤ → ℕ → ℕ → ℤ
days_from_civil year month day =
    let y = if leb month 2 then year -ℤ pos 1 else year in
    let era = div_euclid y 400 in
    let yoe = rem_euclid y 400 in
    let doy = month_start (index_of_month month) + day - 1 in
    let doe = yoe * 365 + yoe / 4 - yoe / 100 + doy in era *ℤ 146097 +ℤ pos doe -ℤ pos 719468

unfoldable pub epoch_seconds_from_civil : ℤ → ℕ → ℕ → ℤ
epoch_seconds_from_civil year month day = mul_i64 (days_from_civil year month day) 86400
