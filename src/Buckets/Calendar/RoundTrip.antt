-- ===== src/Buckets/Calendar/RoundTrip.antt =====
-- The two conversions of the calendar undo one another, and agree with the Gregorian rule.
use midgard_rs.Common.{
  ℕ, suc, ◌+◌, ◌-◌, ◌/◌, ◌≤◌, ◌<◌, ◌≡◌, arith, ltb, leb, true, false, if◌then◌else◌, ◌∙◌,
  Bool-cases, inl, inr,
}
use midgard_rs.Common.Int.{
  ℤ, pos, ◌+ℤ◌, ◌-ℤ◌, ◌*ℤ◌, div_euclid, rem_euclid, int_laws, div_euclid_parts, rem_euclid-lt,
}
use midgard_rs.Buckets.Calendar.{
  year_of_era, year_start, month_index, month_start, month_of_index, index_of_month, civil_of_year,
  civil_from_days, days_from_civil,
}

pub record IsYearOf (doe yoe : ℕ) : Type 0 where
  pub in_era : yoe ≤ 399
  pub starts : year_start yoe ≤ doe
  pub ends : doe < year_start (suc yoe) + yoe / 399

pub year_of_era-IsYearOf : (doe : ℕ) → doe < 146097 → IsYearOf doe (year_of_era doe)
unfolding year_of_era
year_of_era-IsYearOf doe h = omega arith

-- Years do not overlap, so a day determines its year.
pub year_of_era_unique : (doe yoe : ℕ) → doe < 146097 → IsYearOf doe yoe → year_of_era doe ≡ yoe
year_of_era_unique doe yoe h y = let x = year_of_era-IsYearOf doe h in omega arith

-- A quotient and a remainder are those of their sum.
pub div_euclid_400 :
    (q : ℤ) (r : ℕ)
    → r < 400
    → (div_euclid (pos r +ℤ q *ℤ 400) 400 ≡ q) × (rem_euclid (pos r +ℤ q *ℤ 400) 400 ≡ r)
div_euclid_400 q r h =
    let z = pos r +ℤ q *ℤ 400 in
    omega (int_laws, div_euclid_parts z 400 (omega arith), rem_euclid-lt z 400 (omega arith))

-- The day number of a day of a year that begins in March.
unfoldable pub days_of_year : ℤ → ℕ → ℤ
days_of_year y doy =
    div_euclid y 400 *ℤ 146097 +ℤ pos (year_start (rem_euclid y 400) + doy) -ℤ pos 719468

month_index_inv :
    (doy : ℕ) → doy ≤ 365 → index_of_month (month_of_index (month_index doy)) ≡ month_index doy
month_index_inv doy h = ground arith

year_back :
    (y : ℤ) (m : ℕ)
    → (if leb m 2
        then (if leb m 2 then y +ℤ pos 1 else y) -ℤ pos 1
        else (if leb m 2 then y +ℤ pos 1 else y))
      ≡ y
year_back y m = elim (Bool-cases (leb m 2)) [ inl e ↦ rw e (omega int_laws) | inr e ↦ rw e ]

days_from_civil-civil_of_year :
    (y : ℤ) (doy : ℕ)
    → doy ≤ 365
    → (let c = civil_of_year y doy in days_from_civil c.year c.month c.day) ≡ days_of_year y doy
unfolding days_from_civil days_of_year
days_from_civil-civil_of_year y doy h =
    rw (year_back y (month_of_index (month_index doy)), month_index_inv doy h) (omega int_laws)

-- The day of the year that a date is, its year counted from March.
year_range : (doe : ℕ) → doe < 146097 → doe - year_start (year_of_era doe) ≤ 365
year_range doe h = let x = year_of_era-IsYearOf doe h in omega arith

-- Converting any day number to a date and back gives the day number.
pub days_from_civil-civil_from_days :
    (days : ℤ) → (let c = civil_from_days days in days_from_civil c.year c.month c.day) ≡ days
unfolding civil_from_days
days_from_civil-civil_from_days days =
    days_from_civil-civil_of_year (pos yoe +ℤ era *ℤ 400) (doe - year_start yoe)
      (year_range doe doe_lt)
    ∙ unfold days_of_year in
      rw (div_euclid_400 era yoe (omega (arith, known.in_era))).0 (
        rw (div_euclid_400 era yoe (omega (arith, known.in_era))).1
          (omega (int_laws, div_euclid_parts z 146097 (omega arith), known.starts)))
  where
    z : ℤ
    z = days +ℤ pos 719468

    era : ℤ
    era = div_euclid z 146097

    doe : ℕ
    doe = rem_euclid z 146097

    doe_lt : doe < 146097
    doe_lt = rem_euclid-lt z 146097 (omega arith)

    yoe : ℕ
    yoe = year_of_era doe

    known : IsYearOf doe yoe
    known = year_of_era-IsYearOf doe doe_lt

-- From March on a date is in the year that began in its calendar year, before that in the last one.
pub days_from_civil-march :
    (y : ℤ) (m d : ℕ) → 3 ≤ m → days_from_civil y m d ≡ days_of_year y (month_start (m - 3) + d - 1)
unfolding days_from_civil days_of_year
days_from_civil-march y m d h =
    let late : leb m 2 ≡ false = ground arith in
    let past : ltb 2 m ≡ true = ground arith in rw (late, past) (omega int_laws)

pub days_from_civil-january :
    (y : ℤ) (m d : ℕ)
    → m ≤ 2
    → days_from_civil y m d ≡ days_of_year (y -ℤ pos 1) (month_start (m + 9) + d - 1)
unfolding days_from_civil days_of_year
days_from_civil-january y m d h =
    let early : leb m 2 ≡ true = ground arith in
    let short : ltb 2 m ≡ false = ground arith in rw (early, short) (omega int_laws)

pub div_euclid_146097 :
    (q : ℤ) (r : ℕ)
    → r < 146097
    → (div_euclid (q *ℤ 146097 +ℤ pos r -ℤ pos 719468 +ℤ pos 719468) 146097 ≡ q)
      × (rem_euclid (q *ℤ 146097 +ℤ pos r -ℤ pos 719468 +ℤ pos 719468) 146097 ≡ r)
div_euclid_146097 q r h =
    let z = q *ℤ 146097 +ℤ pos r -ℤ pos 719468 +ℤ pos 719468 in
    omega (int_laws, div_euclid_parts z 146097 (omega arith), rem_euclid-lt z 146097 (omega arith))

-- The date of a day of a year that begins in March.
pub civil_from_days-days_of_year :
    (y : ℤ) (doy : ℕ)
    → IsYearOf (year_start (rem_euclid y 400) + doy) (rem_euclid y 400)
    → civil_from_days (days_of_year y doy) ≡ civil_of_year y doy
unfolding civil_from_days days_of_year
civil_from_days-days_of_year y doy known =
    let yoe = rem_euclid y 400 in
    let doe = year_start yoe + doy in
    let lt : doe < 146097 = omega (arith, known.in_era, known.ends) in
    let split = div_euclid_146097 (div_euclid y 400) doe lt in
    let whole : pos yoe +ℤ div_euclid y 400 *ℤ 400 ≡ y =
      omega (int_laws, div_euclid_parts y 400 (omega arith)) in
    let rest : doe - year_start yoe ≡ doy = omega arith in
    rw (split.0, split.1, year_of_era_unique doe yoe lt known, whole, rest)
