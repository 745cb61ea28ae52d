-- ===== src/Buckets/Interval/Edges.antt =====
-- Where month edges lie: the month of a time, and the time at which a month begins.
use midgard_rs.Common.{ℕ, ◌+◌, ◌-◌, ◌*◌, ◌/◌, ◌≤◌, ◌≡◌, refl, arith, ltb, false}
use midgard_rs.Common.Int.{
  ℤ, pos, ◌+ℤ◌, ◌-ℤ◌, ◌*ℤ◌, ◌≤ℤ◌, ◌<ℤ◌, div_euclid, rem_euclid, int_laws, parts_of_eq,
  div_euclid_parts, rem_euclid-lt,
}
use midgard_rs.Common.Word.{wrap, mul_i64}
use midgard_rs.Buckets.Calendar.{
  days_from_civil, civil_from_days, civil_from_epoch_seconds, epoch_seconds_from_civil,
}
use midgard_rs.Buckets.Calendar.RoundTrip.{days_from_civil-civil_from_days}
use midgard_rs.Buckets.Calendar.Gregorian.{
  IsDate, days_in_month, civil_from_days-IsDate, civil_from_days-days_from_civil,
  days_from_civil-day,
}
use midgard_rs.Buckets.Interval.{Interval, first_month, month_step, truncate_months, advance_months}
use midgard_rs.Buckets.Interval.Months.{month_day, month_length, month_day-suc, month_length_bounds}

-- The number of the month that a time is in.
unfoldable pub month_of : ℤ → ℤ
month_of s = let c = civil_from_epoch_seconds s in c.year *ℤ 12 +ℤ pos (c.month - 1)

-- The time at which a month begins.
unfoldable pub edge : ℤ → ℤ
edge k = month_day k *ℤ 86400

ordinal_parts :
    (y : ℤ) (m : ℕ)
    → 1 ≤ m
    → m ≤ 12
    → (div_euclid (y *ℤ 12 +ℤ pos (m - 1)) 12 ≡ y)
      × (rem_euclid (y *ℤ 12 +ℤ pos (m - 1)) 12 + 1 ≡ m)
ordinal_parts y m lo hi =
    let z = y *ℤ 12 +ℤ pos (m - 1) in
    omega (int_laws, div_euclid_parts z 12 (omega arith), rem_euclid-lt z 12 (omega arith))

pub month_of_parts :
    (s : ℤ)
    → let c = civil_from_epoch_seconds s in
      (div_euclid (month_of s) 12 ≡ c.year) × (rem_euclid (month_of s) 12 + 1 ≡ c.month)
unfolding month_of civil_from_epoch_seconds
month_of_parts s =
    let d = civil_from_days-IsDate (div_euclid s 86400) in ordinal_parts _ _ d.month_from d.month_to

-- A day lies between the first day of its month and that of the next.
pub month_of_bounds :
    (s : ℤ)
    → (month_day (month_of s) ≤ℤ div_euclid s 86400)
      × (div_euclid s 86400 <ℤ month_day (month_of s +ℤ pos 1))
month_of_bounds s =
    let days = div_euclid s 86400 in
    let c = civil_from_days days in
    let d = civil_from_days-IsDate days in
    let p = month_of_parts s in
    let starts : month_day (month_of s) ≡ days_from_civil c.year c.month 1 =
      unfold month_day civil_from_epoch_seconds in rw (p.0, p.1) in
    let long : month_length (month_of s) ≡ days_in_month c.year c.month =
      unfold month_length civil_from_epoch_seconds in rw (p.0, p.1) in
    omega (
      int_laws,
      parts_of_eq starts,
      long,
      parts_of_eq (month_day-suc (month_of s)),
      parts_of_eq (days_from_civil-civil_from_days days),
      parts_of_eq (days_from_civil-day c.year c.month c.day d.day_from),
      d.day_from,
      d.day_to,
    )

pub div_euclid-edge : (k : ℤ) → div_euclid (edge k) 86400 ≡ month_day k
unfolding edge
div_euclid-edge k =
    let z = month_day k *ℤ 86400 in
    omega (int_laws, div_euclid_parts z 86400 (omega arith), rem_euclid-lt z 86400 (omega arith))

first_day :
    (k : ℤ) → IsDate (record { year = div_euclid k 12; month = rem_euclid k 12 + 1; day = 1 })
unfolding month_length
first_day k = omega (arith, rem_euclid-lt k 12 (omega arith), month_length_bounds k)

pub civil-edge :
    (k : ℤ)
    → civil_from_epoch_seconds (edge k)
      ≡ record { year = div_euclid k 12; month = rem_euclid k 12 + 1; day = 1 }
unfolding civil_from_epoch_seconds
civil-edge k = rw (div_euclid-edge k) (
    unfold month_day in
    civil_from_days-days_from_civil
      (record { year = div_euclid k 12; month = rem_euclid k 12 + 1; day = 1 }) (first_day k))

pub month_of-edge : (k : ℤ) → month_of (edge k) ≡ k
unfolding month_of
month_of-edge k = rw (civil-edge k) (omega (int_laws, div_euclid_parts k 12 (omega arith)))

-- The month of a group of months that the group begins with.
abbrev pub group_start : ℕ → ℤ → ℤ
group_start n k = k -ℤ pos (rem_euclid k n)

-- What the arms of `truncate` and `advance` have in common.
pub record IsGroup (i : Interval) : Type 0 where
  pub first :
      (k : ℤ)
      → first_month i (rem_euclid k 12 + 1) ≡ rem_euclid (group_start (month_step i) k) 12 + 1
  pub same_year : (k : ℤ) → div_euclid (group_start (month_step i) k) 12 ≡ div_euclid k 12

month_group :
    (k : ℤ)
    → (rem_euclid k 12 + 1 ≡ rem_euclid (group_start 1 k) 12 + 1)
      × (div_euclid (group_start 1 k) 12 ≡ div_euclid k 12)
month_group k =
    let z = group_start 1 k in
    omega (
      int_laws,
      div_euclid_parts z 12 (omega arith),
      rem_euclid-lt z 12 (omega arith),
      div_euclid_parts k 12 (omega arith),
      rem_euclid-lt k 12 (omega arith),
      div_euclid_parts k 1 (omega arith),
      rem_euclid-lt k 1 (omega arith),
    )

pub month-IsGroup : IsGroup Interval.month
month-IsGroup = record { first = λ k. (month_group k).0; same_year = λ k. (month_group k).1 }

quarter_group :
    (k : ℤ)
    → ((rem_euclid k 12 + 1 - 1) / 3 * 3 + 1 ≡ rem_euclid (group_start 3 k) 12 + 1)
      × (div_euclid (group_start 3 k) 12 ≡ div_euclid k 12)
quarter_group k =
    let z = group_start 3 k in
    omega (
      int_laws,
      div_euclid_parts z 12 (omega arith),
      rem_euclid-lt z 12 (omega arith),
      div_euclid_parts k 12 (omega arith),
      rem_euclid-lt k 12 (omega arith),
      div_euclid_parts k 3 (omega arith),
      rem_euclid-lt k 3 (omega arith),
    )

pub quarter-IsGroup : IsGroup Interval.quarter
quarter-IsGroup = record { first = λ k. (quarter_group k).0; same_year = λ k. (quarter_group k).1 }

year_group :
    (k : ℤ)
    → (1 ≡ rem_euclid (group_start 12 k) 12 + 1)
      × (div_euclid (group_start 12 k) 12 ≡ div_euclid k 12)
year_group k =
    let z = group_start 12 k in
    omega (
      int_laws,
      div_euclid_parts z 12 (omega arith),
      rem_euclid-lt z 12 (omega arith),
      div_euclid_parts k 12 (omega arith),
      rem_euclid-lt k 12 (omega arith),
      div_euclid_parts k 12 (omega arith),
      rem_euclid-lt k 12 (omega arith),
    )

pub year-IsGroup : IsGroup Interval.year
year-IsGroup = record { first = λ k. (year_group k).0; same_year = λ k. (year_group k).1 }

pub truncate_months-edge :
    (i : Interval)
    → IsGroup i
    → (s : ℤ) → truncate_months i s ≡ wrap (edge (group_start (month_step i) (month_of s)))
unfolding truncate_months
truncate_months-edge i g s =
    let k = month_of s in
    let p = month_of_parts s in
    let late : (m : ℕ) → ltb (m + 1) 1 ≡ false = λ m. ground arith in
    rw
      (
        ← p.0,
        ← p.1,
        g.first k,
        late (rem_euclid (group_start (month_step i) k) 12),
        ← g.same_year k,
      )
      (unfold edge month_day epoch_seconds_from_civil mul_i64 in refl)

pub advance_months-edge :
    (i : Interval) (k : ℤ) → advance_months i (edge k) ≡ wrap (edge (k +ℤ pos (month_step i)))
unfolding advance_months
advance_months-edge i k =
    let whole : div_euclid k 12 *ℤ 12 +ℤ pos (rem_euclid k 12 + 1 - 1) ≡ k =
      omega (int_laws, div_euclid_parts k 12 (omega arith)) in
    rw (civil-edge k, whole) (unfold edge month_day epoch_seconds_from_civil mul_i64 in refl)
