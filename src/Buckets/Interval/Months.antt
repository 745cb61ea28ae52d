-- ===== src/Buckets/Interval/Months.antt =====
-- Months in a row, numbered from that of year 0: where each begins and how long it is.
use midgard_rs.Common.{ℕ, zero, suc, ◌+◌, ◌≤◌, ◌<◌, ◌≡◌, arith, Bool-cases, inl, inr, ==_iff, ◌==◌}
use midgard_rs.Common.Int.{
  ℤ, pos, pos_part, neg_part, ◌+ℤ◌, ◌≤ℤ◌, div_euclid, rem_euclid, int_laws, div_euclid_parts,
  rem_euclid-lt,
}
use midgard_rs.Buckets.Calendar.{days_from_civil}
use midgard_rs.Buckets.Calendar.Gregorian.{
  days_in_month, days_from_civil-next_month, days_from_civil-next_year, days_from_civil-year,
}

-- The first day of a month.
unfoldable pub month_day : ℤ → ℤ
month_day k = days_from_civil (div_euclid k 12) (rem_euclid k 12 + 1) 1

unfoldable pub month_length : ℤ → ℕ
month_length k = days_in_month (div_euclid k 12) (rem_euclid k 12 + 1)

pub month_length_bounds : (k : ℤ) → (28 ≤ month_length k) × (month_length k ≤ 31)
unfolding month_length days_in_month
month_length_bounds k = ground arith

-- The month after one is in the same year or the first of the next.
div_euclid-suc_12 :
    (k : ℤ)
    → rem_euclid k 12 < 11
    → (div_euclid (k +ℤ pos 1) 12 ≡ div_euclid k 12)
      × (rem_euclid (k +ℤ pos 1) 12 ≡ suc (rem_euclid k 12))
div_euclid-suc_12 k h =
    let z = k +ℤ pos 1 in
    omega (
      int_laws,
      div_euclid_parts z 12 (omega arith),
      rem_euclid-lt z 12 (omega arith),
      div_euclid_parts k 12 (omega arith),
    )

div_euclid-wrap_12 :
    (k : ℤ)
    → rem_euclid k 12 ≡ 11
    → (div_euclid (k +ℤ pos 1) 12 ≡ div_euclid k 12 +ℤ pos 1) × (rem_euclid (k +ℤ pos 1) 12 ≡ 0)
div_euclid-wrap_12 k h =
    let z = k +ℤ pos 1 in
    omega (
      int_laws,
      div_euclid_parts z 12 (omega arith),
      rem_euclid-lt z 12 (omega arith),
      div_euclid_parts k 12 (omega arith),
    )

suc_add : (n : ℕ) → suc n + 1 ≡ suc (n + 1)
suc_add n = omega arith

pub month_day-suc : (k : ℤ) → month_day (k +ℤ pos 1) ≡ month_day k +ℤ pos (month_length k)
unfolding days_in_month
month_day-suc k = elim (Bool-cases (rem_euclid k 12 == 11)) [
  | inl e ↦ last ((==_iff _ _).0 e)
  | inr e ↦ inner (ground (arith, rem_euclid-lt k 12 (omega arith)))
]
  where
    last : rem_euclid k 12 ≡ 11 → month_day (k +ℤ pos 1) ≡ month_day k +ℤ pos (month_length k)
    last e =
        let next = div_euclid-wrap_12 k e in
        unfold month_day month_length in
        rw (next.0, next.1, e) (days_from_civil-next_year (div_euclid k 12))

    inner : rem_euclid k 12 < 11 → month_day (k +ℤ pos 1) ≡ month_day k +ℤ pos (month_length k)
    inner h =
        let next = div_euclid-suc_12 k h in
        unfold month_day month_length in
        rw (next.0, next.1)
          (rw (suc_add (rem_euclid k 12)) (
            days_from_civil-next_month (div_euclid k 12) (rem_euclid k 12 + 1) (omega arith)
              (omega arith)))

pub month_day_mono : (k : ℤ) (n : ℕ) → month_day k ≤ℤ month_day (k +ℤ pos n)
month_day_mono k zero = let e : k +ℤ pos 0 ≡ k = omega int_laws in rw e (omega arith)
month_day_mono k (suc n) =
    let e : k +ℤ pos (suc n) ≡ k +ℤ pos n +ℤ pos 1 = omega int_laws in
    rw (e, month_day-suc (k +ℤ pos n)) (omega (int_laws, month_day_mono k n))

-- Three months, and twelve from January on.
pub month_day-quarter :
    (k : ℤ)
    → (84 + neg_part (month_day (k +ℤ pos 3)) + pos_part (month_day k)
        ≤ pos_part (month_day (k +ℤ pos 3)) + neg_part (month_day k))
      × (pos_part (month_day (k +ℤ pos 3)) + neg_part (month_day k)
          ≤ 93 + neg_part (month_day (k +ℤ pos 3)) + pos_part (month_day k))
month_day-quarter k =
    let a : k +ℤ pos 3 ≡ k +ℤ pos 1 +ℤ pos 1 +ℤ pos 1 = omega int_laws in
    rw (a, month_day-suc (k +ℤ pos 1 +ℤ pos 1), month_day-suc (k +ℤ pos 1), month_day-suc k)
      (omega (
        int_laws,
        month_length_bounds k,
        month_length_bounds (k +ℤ pos 1),
        month_length_bounds (k +ℤ pos 1 +ℤ pos 1),
      ))

pub month_day-year :
    (k : ℤ)
    → rem_euclid k 12 ≡ 0
    → month_day (k +ℤ pos 12) ≡ month_day k +ℤ pos (337 + days_in_month (div_euclid k 12) 2)
unfolding month_day
month_day-year k h =
    let z = k +ℤ pos 12 in
    let d : div_euclid (k +ℤ pos 12) 12 ≡ div_euclid k 12 +ℤ pos 1 = omega (
      int_laws,
      div_euclid_parts z 12 (omega arith),
      rem_euclid-lt z 12 (omega arith),
      div_euclid_parts k 12 (omega arith),
    ) in
    let r : rem_euclid (k +ℤ pos 12) 12 ≡ 0 = omega (
      int_laws,
      div_euclid_parts z 12 (omega arith),
      rem_euclid-lt z 12 (omega arith),
      div_euclid_parts k 12 (omega arith),
    ) in
    rw (d, r, h) (days_from_civil-year (div_euclid k 12))
