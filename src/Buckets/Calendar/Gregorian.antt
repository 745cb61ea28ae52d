-- ===== src/Buckets/Calendar/Gregorian.antt =====
-- The calendar against the Gregorian rule for leap years and the lengths of the months.
use midgard_rs.Common.{
  ℕ, zero, suc, ◌+◌, ◌-◌, ◌/◌, ◌%◌, ◌≤◌, ◌<◌, ◌≡◌, refl, arith, leb, if◌then◌else◌, Bool, ◌==◌,
  ◌&&◌, ◌||◌, not, Bool-cases, inl, inr,
}
use midgard_rs.Common.Int.{
  ℤ, pos, neg_part, pos_part, ◌+ℤ◌, ◌-ℤ◌, ◌*ℤ◌, div_euclid, rem_euclid, int_laws, div_euclid_parts,
  rem_euclid-lt,
}
use midgard_rs.Buckets.Calendar.{
  Civil, year_of_era, year_start, month_index, month_start, civil_of_year, civil_from_days,
  days_from_civil,
}
use midgard_rs.Buckets.Calendar.RoundTrip.{
  IsYearOf, year_of_era-IsYearOf, div_euclid_400, days_of_year, days_from_civil-march,
  days_from_civil-january, civil_from_days-days_of_year,
}

-- The leap rule, on the remainder of a year by 400.
abbrev pub leap_rule : ℕ → Bool
leap_rule r = r % 4 == 0 && (not (r % 100 == 0) || r == 0)

unfoldable pub is_leap : ℤ → Bool
is_leap year = leap_rule (rem_euclid year 400)

unfoldable pub days_in_month : ℤ → ℕ → ℕ
days_in_month year month =
    if month == 2
    then (if is_leap year then 29 else 28)
    else if month == 4 || month == 6 || month == 9 || month == 11
    then 30
    else 31

pub record IsDate (c : Civil) : Type 0 where
  pub month_from : 1 ≤ c.month
  pub month_to : c.month ≤ 12
  pub day_from : 1 ≤ c.day
  pub day_to : c.day ≤ days_in_month c.year c.month

-- A year from March to February, by the leap rule for its February.
abbrev pub year_length : ℕ → ℕ
year_length yoe = if leap_rule (suc yoe % 400) then 366 else 365

pub year_start-suc :
    (yoe : ℕ) → yoe ≤ 399 → year_start (suc yoe) + yoe / 399 ≡ year_start yoe + year_length yoe
year_start-suc yoe h = ground arith

pub rem_euclid-suc_400 : (y : ℤ) → rem_euclid (y +ℤ pos 1) 400 ≡ suc (rem_euclid y 400) % 400
rem_euclid-suc_400 y =
    let z = y +ℤ pos 1 in
    omega (
      int_laws,
      div_euclid_parts z 400 (omega arith),
      rem_euclid-lt z 400 (omega arith),
      div_euclid_parts y 400 (omega arith),
      rem_euclid-lt y 400 (omega arith),
    )

civil_of_year-IsDate :
    (y : ℤ) (doy : ℕ) → doy < year_length (rem_euclid y 400) → IsDate (civil_of_year y doy)
unfolding days_in_month is_leap
civil_of_year-IsDate y doy h = ground (arith, rem_euclid-suc_400 y)

-- The date of any day number is a date of the Gregorian calendar, the days of a February given by
-- the leap year rule.
pub civil_from_days-IsDate : (days : ℤ) → IsDate (civil_from_days days)
unfolding civil_from_days
civil_from_days-IsDate days = civil_of_year-IsDate (pos yoe +ℤ era *ℤ 400) (doe - year_start yoe) (
    rw (div_euclid_400 era yoe (omega (arith, known.in_era))).1
      (omega (arith, known.starts, known.ends, year_start-suc yoe known.in_era)))
  where
    z : ℤ
    z = days +ℤ pos 719468

    era : ℤ
    era = div_euclid z 146097

    doe : ℕ
    doe = rem_euclid z 146097

    yoe : ℕ
    yoe = year_of_era doe

    known : IsYearOf doe yoe
    known = year_of_era-IsYearOf doe (rem_euclid-lt z 146097 (omega arith))

-- The day number within a month goes up with the day.
pub days_from_civil-day :
    (y : ℤ) (m d : ℕ) → 1 ≤ d → days_from_civil y m d ≡ days_from_civil y m 1 +ℤ pos (d - 1)
unfolding days_from_civil
days_from_civil-day y m d h = omega int_laws

-- A step from one year to the next is within an era or into the next one.
march_year :
    (y : ℤ)
    → (pos_part (div_euclid y 400) + neg_part (div_euclid (y -ℤ pos 1) 400)
        ≡ pos_part (div_euclid (y -ℤ pos 1) 400)
          + neg_part (div_euclid y 400)
          + (suc (rem_euclid (y -ℤ pos 1) 400)) / 400)
      × (rem_euclid y 400 ≡ suc (rem_euclid (y -ℤ pos 1) 400) % 400)
march_year y =
    let z = y -ℤ pos 1 in
    omega (
      int_laws,
      div_euclid_parts z 400 (omega arith),
      rem_euclid-lt z 400 (omega arith),
      div_euclid_parts y 400 (omega arith),
      rem_euclid-lt y 400 (omega arith),
    )

january : (y : ℤ) → days_in_month y 1 ≡ 31
unfolding days_in_month
january y = refl

february : (y : ℤ) → days_in_month y 2 + 337 ≡ year_length (rem_euclid (y -ℤ pos 1) 400)
unfolding days_in_month is_leap
february y = ground (arith, march_year y)

from_march :
    (y : ℤ) (m : ℕ) → 3 ≤ m → m ≤ 11 → month_start (m - 3) + days_in_month y m ≡ month_start (m - 2)
unfolding days_in_month
from_march y m h k = ground arith

-- From January to November, the first day of the next month comes after that of the month by the
-- days that the Gregorian calendar gives the month.
pub days_from_civil-next_month :
    (y : ℤ) (m : ℕ)
    → 1 ≤ m
    → m ≤ 11
    → days_from_civil y (suc m) 1 ≡ days_from_civil y m 1 +ℤ pos (days_in_month y m)
unfolding days_from_civil
days_from_civil-next_month y zero h k = absurd (omega arith)
days_from_civil-next_month y (suc zero) h k = omega (int_laws, january y)
days_from_civil-next_month y (suc (suc zero)) h k = omega (
  int_laws,
  march_year y,
  february y,
  year_start-suc (rem_euclid (y -ℤ pos 1) 400) (omega (arith, rem_euclid-lt (y -ℤ pos 1) 400)),
  rem_euclid-lt (y -ℤ pos 1) 400 (omega arith),
)
days_from_civil-next_month y (suc (suc (suc m))) h k =
    rw
      (
        days_from_civil-march y (suc (suc (suc (suc m)))) 1 (omega arith),
        days_from_civil-march y (suc (suc (suc m))) 1 (omega arith),
      )
      (unfold days_of_year in omega (int_laws, from_march y (suc (suc (suc m))) (omega arith) k))

pub days_from_civil-next_year :
    (y : ℤ) → days_from_civil (y +ℤ pos 1) 1 1 ≡ days_from_civil y 12 1 +ℤ pos 31
unfolding days_from_civil
days_from_civil-next_year y =
    let e : y +ℤ pos 1 -ℤ pos 1 ≡ y = omega int_laws in rw e (omega int_laws)

month_index-march :
    (y : ℤ) (m d : ℕ)
    → 3 ≤ m
    → m ≤ 12
    → 1 ≤ d
    → d ≤ days_in_month y m
    → month_index (month_start (m - 3) + d - 1) ≡ m - 3
unfolding days_in_month
month_index-march y m d lo hi p h = ground arith

month_index-january :
    (y : ℤ) (m d : ℕ)
    → 1 ≤ m
    → m ≤ 2
    → 1 ≤ d
    → d ≤ days_in_month y m
    → month_index (month_start (m + 9) + d - 1) ≡ m + 9
unfolding days_in_month
month_index-january y m d lo hi p h = ground arith

-- A day before the end of the year is of that year.
in_year : (yoe doy : ℕ) → yoe < 400 → doy < year_length yoe → IsYearOf (year_start yoe + doy) yoe
in_year yoe doy h k = let e = year_start-suc yoe (omega arith) in omega arith

march_in_year :
    (y : ℤ) (m d : ℕ) → 3 ≤ m → m ≤ 12 → d ≤ days_in_month y m → month_start (m - 3) + d - 1 < 365
unfolding days_in_month
march_in_year y m d lo hi k = ground arith

january_in_year :
    (y : ℤ) (m d : ℕ)
    → 1 ≤ m
    → m ≤ 2
    → 1 ≤ d
    → d ≤ days_in_month y m
    → month_start (m + 9) + d - 1 < year_length (rem_euclid (y -ℤ pos 1) 400)
january_in_year y zero d lo hi p k = absurd (omega arith)
january_in_year y (suc zero) d lo hi p k = ground (arith, january y)
january_in_year y (suc (suc zero)) d lo hi p k = omega (arith, february y)
january_in_year y (suc (suc (suc m))) d lo hi p k = absurd (omega arith)

year_length_ge : (yoe : ℕ) → 365 ≤ year_length yoe
year_length_ge yoe = ground arith

march_back :
    (y : ℤ) (m d : ℕ)
    → 3 ≤ m
    → m ≤ 12
    → 1 ≤ d
    → d ≤ days_in_month y m
    → civil_from_days (days_from_civil y m d) ≡ record { year = y; month = m; day = d }
march_back y m d lo hi p k =
    let doy = month_start (m - 3) + d - 1 in
    let yoe = rem_euclid y 400 in
    let known =
      in_year yoe doy (rem_euclid-lt y 400 (omega arith))
        (omega (arith, march_in_year y m d lo hi k, year_length_ge yoe)) in
    rw
      (
        days_from_civil-march y m d lo,
        civil_from_days-days_of_year y doy known,
        month_index-march y m d lo hi p k,
      )
      (ground arith)

january_back :
    (y : ℤ) (m d : ℕ)
    → 1 ≤ m
    → m ≤ 2
    → 1 ≤ d
    → d ≤ days_in_month y m
    → civil_from_days (days_from_civil y m d) ≡ record { year = y; month = m; day = d }
january_back y m d lo hi p k =
    let doy = month_start (m + 9) + d - 1 in
    let known =
      in_year (rem_euclid (y -ℤ pos 1) 400) doy (rem_euclid-lt (y -ℤ pos 1) 400 (omega arith))
        (january_in_year y m d lo hi p k) in
    let back : y -ℤ pos 1 +ℤ pos 1 ≡ y = omega int_laws in
    rw
      (
        days_from_civil-january y m d hi,
        civil_from_days-days_of_year (y -ℤ pos 1) doy known,
        month_index-january y m d lo hi p k,
        back,
      )
      (ground arith)

-- Every date of the Gregorian calendar is the date of its day number.
pub civil_from_days-days_from_civil :
    (c : Civil) → IsDate c → civil_from_days (days_from_civil c.year c.month c.day) ≡ c
civil_from_days-days_from_civil c h = elim (Bool-cases (leb c.month 2)) [
  | inl e ↦ january_back c.year c.month c.day h.month_from (ground arith) h.day_from h.day_to
  | inr e ↦ march_back c.year c.month c.day (ground arith) h.month_to h.day_from h.day_to
]

-- From one New Year to the next there are 337 days and a February.
pub days_from_civil-year :
    (y : ℤ)
    → days_from_civil (y +ℤ pos 1) 1 1 ≡ days_from_civil y 1 1 +ℤ pos (337 + days_in_month y 2)
days_from_civil-year y =
    let e : y +ℤ pos 1 -ℤ pos 1 ≡ y = omega int_laws in
    let lt = rem_euclid-lt (y -ℤ pos 1) 400 (omega arith) in
    rw
      (
        days_from_civil-january (y +ℤ pos 1) 1 1 (omega arith),
        days_from_civil-january y 1 1 (omega arith),
        e,
      )
      (unfold days_of_year in
        omega (
          int_laws,
          march_year y,
          february y,
          lt,
          year_start-suc (rem_euclid (y -ℤ pos 1) 400) (omega arith),
        ))

pub february_bounds : (y : ℤ) → (28 ≤ days_in_month y 2) × (days_in_month y 2 ≤ 29)
unfolding days_in_month
february_bounds y = ground arith
