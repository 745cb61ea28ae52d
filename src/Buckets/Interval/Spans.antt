-- ===== src/Buckets/Interval/Spans.antt =====
-- Intervals of whole months round to the first days of their months.
use midgard_rs.Common.{ℕ, ◌-◌, ◌*◌, ◌≤◌, ◌≡◌, arith, ◌∙◌}
use midgard_rs.Common.Int.{
  ℤ, pos, ◌+ℤ◌, ◌≤ℤ◌, ◌<ℤ◌, div_euclid, rem_euclid, int_laws, div_euclid_parts, rem_euclid-lt,
  parts_of_eq, one_sign,
}
use midgard_rs.Common.Word.{IsI64, wrap_id}
use midgard_rs.Core.Time.{Second}
use midgard_rs.Buckets.Interval.{
  Interval, month, quarter, year, month_step, truncate, advance, truncate_months, advance_months,
  min_duration, max_duration,
}
use midgard_rs.Buckets.Interval.Months.{
  month_day, month_length_bounds, month_day-suc, month_day_mono, month_day-quarter, month_day-year,
}
use midgard_rs.Buckets.Interval.Edges.{
  month_of, edge, month_of_bounds, month_of-edge, group_start, IsGroup, month-IsGroup,
  quarter-IsGroup, year-IsGroup, truncate_months-edge, advance_months-edge,
}
use midgard_rs.Buckets.Calendar.Gregorian.{february_bounds}
use midgard_rs.Buckets.Interval.Rounding.{IsTime, Rounds}

-- An interval of whole months.
pub record IsSpan (i : Interval) : Type 0 where
  pub shape : IsGroup i
  pub some_months : 1 ≤ month_step i
  pub at_most : max_duration i ≤ 366 * 86400
  pub starts : (k : ℤ) → rem_euclid (group_start (month_step i) k) (month_step i) ≡ 0
  pub next_starts :
      (k : ℤ)
      → rem_euclid k (month_step i) ≡ 0
      → rem_euclid (k +ℤ pos (month_step i)) (month_step i) ≡ 0
  pub shortest :
      (k : ℤ)
      → rem_euclid k (month_step i) ≡ 0
      → edge k +ℤ pos (min_duration i) ≤ℤ edge (k +ℤ pos (month_step i))
  pub longest :
      (k : ℤ)
      → rem_euclid k (month_step i) ≡ 0
      → edge (k +ℤ pos (month_step i)) ≤ℤ edge k +ℤ pos (max_duration i)

group_rem_3 : (k : ℤ) → rem_euclid (group_start 3 k) 3 ≡ 0
group_rem_3 k =
    let z = group_start 3 k in
    omega (
      int_laws,
      div_euclid_parts z 3 (omega arith),
      rem_euclid-lt z 3 (omega arith),
      div_euclid_parts k 3 (omega arith),
    )

group_rem_12 : (k : ℤ) → rem_euclid (group_start 12 k) 12 ≡ 0
group_rem_12 k =
    let z = group_start 12 k in
    omega (
      int_laws,
      div_euclid_parts z 12 (omega arith),
      rem_euclid-lt z 12 (omega arith),
      div_euclid_parts k 12 (omega arith),
    )

next_rem_3 : (k : ℤ) → rem_euclid k 3 ≡ 0 → rem_euclid (k +ℤ pos 3) 3 ≡ 0
next_rem_3 k h =
    let z = k +ℤ pos 3 in
    omega (
      int_laws,
      div_euclid_parts z 3 (omega arith),
      rem_euclid-lt z 3 (omega arith),
      div_euclid_parts k 3 (omega arith),
    )

next_rem_12 : (k : ℤ) → rem_euclid k 12 ≡ 0 → rem_euclid (k +ℤ pos 12) 12 ≡ 0
next_rem_12 k h =
    let z = k +ℤ pos 12 in
    omega (
      int_laws,
      div_euclid_parts z 12 (omega arith),
      rem_euclid-lt z 12 (omega arith),
      div_euclid_parts k 12 (omega arith),
    )

pub month-IsSpan : IsSpan month
unfolding min_duration max_duration edge
month-IsSpan = record {
  shape = month-IsGroup;
  some_months = omega arith;
  at_most = omega arith;
  starts = λ k. omega (arith, rem_euclid-lt (group_start 1 k) 1 (omega arith));
  next_starts = λ k h. omega (arith, rem_euclid-lt (k +ℤ pos 1) 1 (omega arith));
  shortest = λ k h. omega (int_laws, parts_of_eq (month_day-suc k), month_length_bounds k);
  longest = λ k h. omega (int_laws, parts_of_eq (month_day-suc k), month_length_bounds k);
}

pub quarter-IsSpan : IsSpan quarter
unfolding min_duration max_duration edge
quarter-IsSpan = record {
  shape = quarter-IsGroup;
  some_months = omega arith;
  at_most = omega arith;
  starts = group_rem_3;
  next_starts = next_rem_3;
  shortest = λ k h. omega (int_laws, month_day-quarter k);
  longest = λ k h. omega (int_laws, month_day-quarter k);
}

pub year-IsSpan : IsSpan year
unfolding min_duration max_duration edge
year-IsSpan = record {
  shape = year-IsGroup;
  some_months = omega arith;
  at_most = omega arith;
  starts = group_rem_12;
  next_starts = next_rem_12;
  shortest =
      λ k h. omega (int_laws, parts_of_eq (month_day-year k h), february_bounds (div_euclid k 12));
  longest =
      λ k h. omega (int_laws, parts_of_eq (month_day-year k h), february_bounds (div_euclid k 12));
}

-- The edges around a time, and that they are in range.
record Around (i : Interval) (s : Second) (k : ℤ) : Type 0 where
  group : rem_euclid k (month_step i) ≡ 0
  below : edge k ≤ℤ s
  above : s <ℤ edge (k +ℤ pos (month_step i))
  here_fits : IsI64 (edge k)
  next_fits : IsI64 (edge (k +ℤ pos (month_step i)))

around :
    (i : Interval)
    → IsSpan i
    → (s : Second) → IsTime s
    → Around i s (group_start (month_step i) (month_of s))
around i sp s t =
    let n = month_step i in
    let k = month_of s in
    let k0 = group_start n k in
    let r = rem_euclid k n in
    let lt = rem_euclid-lt k n (omega (arith, sp.some_months)) in
    let up : k0 +ℤ pos r ≡ k = omega int_laws in
    let next : k +ℤ pos 1 +ℤ pos (n - 1 - r) ≡ k0 +ℤ pos n = omega (int_laws, lt) in
    let low : month_day k0 ≤ℤ month_day k = rw up at (month_day_mono k0 r) in
    let high : month_day (k +ℤ pos 1) ≤ℤ month_day (k0 +ℤ pos n) =
      rw next at (month_day_mono (k +ℤ pos 1) (n - 1 - r)) in
    let start = sp.starts k in
    let far = sp.longest k0 start in
    let b : edge k0 ≤ℤ s =
      unfold edge in
      omega (int_laws, low, month_of_bounds s, div_euclid_parts s 86400 (omega arith)) in
    let a : s <ℤ edge (k0 +ℤ pos n) =
      unfold edge in
      omega (
        int_laws,
        high,
        month_of_bounds s,
        div_euclid_parts s 86400 (omega arith),
        rem_euclid-lt s 86400 (omega arith),
      ) in
    record {
      group = start;
      below = b;
      above = a;
      here_fits = omega (int_laws, b, a, far, t, sp.at_most, one_sign (edge k0));
      next_fits = omega (int_laws, b, a, far, t, sp.at_most, one_sign (edge (k0 +ℤ pos n)));
    }

-- The claim for an interval of whole months, once `truncate` and `advance` take that arm.
pub months-Rounds :
    (i : Interval)
    → IsSpan i
    → ((s : Second) → truncate i s ≡ truncate_months i s)
    → ((s : Second) → advance i s ≡ advance_months i s)
    → (s : Second) → IsTime s
    → Rounds i s
months-Rounds i sp truncates advances s t = record {
  below = rw here fit.below;
  above = rw (here, next) fit.above;
  shortest = rw (here, next) (sp.shortest k fit.group);
  longest = rw (here, next) (sp.longest k fit.group);
  fixed = rw here (stays k fit.group fit.here_fits);
  next_fixed = rw (here, next) (stays (k +ℤ pos n) (sp.next_starts k fit.group) fit.next_fits);
}
  where
    n : ℕ
    n = month_step i

    k : ℤ
    k = group_start n (month_of s)

    fit : Around i s k
    fit = around i sp s t

    here : truncate i s ≡ edge k
    here = truncates s ∙ truncate_months-edge i sp.shape s ∙ wrap_id (edge k) fit.here_fits

    next : advance i (edge k) ≡ edge (k +ℤ pos n)
    next = advances (edge k) ∙ advance_months-edge i k ∙ wrap_id (edge (k +ℤ pos n)) fit.next_fits

    same_start : (j : ℤ) → rem_euclid j n ≡ 0 → group_start n j ≡ j
    same_start j h = omega (int_laws, h)

    stays : (j : ℤ) → rem_euclid j n ≡ 0 → IsI64 (edge j) → truncate i (edge j) ≡ edge j
    stays j h fits =
        truncates (edge j)
        ∙ truncate_months-edge i sp.shape (edge j)
        ∙ rw (month_of-edge j, same_start j h) (wrap_id (edge j) fits)
