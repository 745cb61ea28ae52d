-- ===== src/Buckets/Interval/Steps.antt =====
-- Intervals of a fixed length round to whole numbers of steps.
use midgard_rs.Common.{ℕ, ◌+◌, ◌^◌, ◌≤◌, ◌<◌, ◌≡◌, arith, ◌∙◌}
use midgard_rs.Common.Int.{
  ℤ, pos, pos_part, neg_part, ◌+ℤ◌, ◌-ℤ◌, ◌*ℤ◌, div_euclid, rem_euclid, int_laws, div_euclid_parts,
  rem_euclid-lt, one_sign,
}
use midgard_rs.Common.Word.{add_i64, sub_i64, mul_i64, wrap_id}
use midgard_rs.Core.Time.{Second}
use midgard_rs.Buckets.Interval.{
  Interval, week, floor_to, truncate, advance, min_duration, max_duration,
}
use midgard_rs.Buckets.Interval.Rounding.{IsTime, Rounds}

floor_to-eq :
    (d : ℕ) (s : ℤ)
    → 0 < d
    → d ≤ 604800
    → (pos_part s ≤ 2 ^ 62) × (neg_part s ≤ 2 ^ 62)
    → floor_to d s ≡ s -ℤ pos (rem_euclid s d)
unfolding mul_i64
floor_to-eq d s h k t =
    let parts = div_euclid_parts s d h in
    let lt = rem_euclid-lt s d h in
    let z = div_euclid s d *ℤ d in
    let eq : div_euclid s d *ℤ d ≡ s -ℤ pos (rem_euclid s d) = omega (int_laws, parts, lt) in
    rw (wrap_id z (omega (int_laws, parts, lt, one_sign z))) eq

-- A whole number of steps stays one when a step is added, and is what rounding leaves.
pub record IsStep (d : ℕ) : Type 0 where
  positive : 0 < d
  at_most : d ≤ 604800
  clears : (s : ℤ) → rem_euclid (s -ℤ pos (rem_euclid s d)) d ≡ 0
  goes_on : (s : ℤ) → rem_euclid s d ≡ 0 → rem_euclid (s +ℤ pos d) d ≡ 0

-- Rounding on an axis that is shifted by `off`.
unfoldable pub steps : ℕ → ℕ → ℤ → ℤ
steps off d s = s -ℤ pos (rem_euclid (s +ℤ pos off) d)

pub steps-Rounds :
    (i : Interval) (off d : ℕ)
    → IsStep d
    → off ≤ d
    → min_duration i ≡ d
    → max_duration i ≡ d
    → ((s : Second)
        → (pos_part s ≤ 2 ^ 61 + 2 ^ 60) × (neg_part s ≤ 2 ^ 61 + 2 ^ 60)
        → truncate i s ≡ steps off d s)
    → ((s : Second) → advance i s ≡ add_i64 s (pos d))
    → (s : Second) → IsTime s
    → Rounds i s
steps-Rounds i off d st small lo hi truncates advances s t = record {
  below = rw here (unfold steps in omega int_laws);
  above = rw (here, next) (unfold steps in omega (int_laws, lt));
  shortest = rw (here, next, lo) (omega int_laws);
  longest = rw (here, next, hi) (omega int_laws);
  fixed = rw here (stays b (omega (arith, b_range)) b_rem);
  next_fixed =
      rw (here, next)
        (stays (b +ℤ pos d) (omega (int_laws, lt, st.at_most, one_sign (b +ℤ pos d), b_range))
          next_rem);
}
  where
    lt : rem_euclid (s +ℤ pos off) d < d
    lt = rem_euclid-lt (s +ℤ pos off) d st.positive

    b : ℤ
    b = steps off d s

    here : truncate i s ≡ b
    here = truncates s (omega arith)

    b_range : (pos_part b ≤ 2 ^ 61 + 604800) × (neg_part b ≤ 2 ^ 61 + 604800)
    b_range = unfold steps in omega (int_laws, lt, st.at_most, one_sign (steps off d s))

    next : advance i b ≡ b +ℤ pos d
    next =
        advances b
        ∙ (unfold add_i64 in
            wrap_id (b +ℤ pos d) (omega (int_laws, st.at_most, b_range, one_sign (b +ℤ pos d))))

    shift : b +ℤ pos off ≡ (s +ℤ pos off) -ℤ pos (rem_euclid (s +ℤ pos off) d)
    shift = unfold steps in omega int_laws

    b_rem : rem_euclid (b +ℤ pos off) d ≡ 0
    b_rem = rw shift (st.clears (s +ℤ pos off))

    shift_next : b +ℤ pos d +ℤ pos off ≡ b +ℤ pos off +ℤ pos d
    shift_next = omega int_laws

    next_rem : rem_euclid (b +ℤ pos d +ℤ pos off) d ≡ 0
    next_rem = rw shift_next (st.goes_on (b +ℤ pos off) b_rem)

    stays :
        (z : ℤ)
        → (pos_part z ≤ 2 ^ 61 + 2000000) × (neg_part z ≤ 2 ^ 61 + 2000000)
        → rem_euclid (z +ℤ pos off) d ≡ 0
        → truncate i z ≡ z
    stays z r e = truncates z (omega arith) ∙ (unfold steps in omega (int_laws, e))

pub min5-IsStep : IsStep 300
min5-IsStep = record {
  positive = omega arith;
  at_most = omega arith;
  clears = λ s. clears s;
  goes_on = λ s h. goes_on s h;
}
  where
    clears : (s : ℤ) → rem_euclid (s -ℤ pos (rem_euclid s 300)) 300 ≡ 0
    clears s =
        let z = s -ℤ pos (rem_euclid s 300) in
        omega (
          int_laws,
          div_euclid_parts z 300 (omega arith),
          rem_euclid-lt z 300 (omega arith),
          div_euclid_parts s 300 (omega arith),
        )

    goes_on : (s : ℤ) → rem_euclid s 300 ≡ 0 → rem_euclid (s +ℤ pos 300) 300 ≡ 0
    goes_on s h =
        let z = s +ℤ pos 300 in
        omega (
          int_laws,
          div_euclid_parts z 300 (omega arith),
          rem_euclid-lt z 300 (omega arith),
          div_euclid_parts s 300 (omega arith),
        )

pub hour-IsStep : IsStep 3600
hour-IsStep = record {
  positive = omega arith;
  at_most = omega arith;
  clears = λ s. clears s;
  goes_on = λ s h. goes_on s h;
}
  where
    clears : (s : ℤ) → rem_euclid (s -ℤ pos (rem_euclid s 3600)) 3600 ≡ 0
    clears s =
        let z = s -ℤ pos (rem_euclid s 3600) in
        omega (
          int_laws,
          div_euclid_parts z 3600 (omega arith),
          rem_euclid-lt z 3600 (omega arith),
          div_euclid_parts s 3600 (omega arith),
        )

    goes_on : (s : ℤ) → rem_euclid s 3600 ≡ 0 → rem_euclid (s +ℤ pos 3600) 3600 ≡ 0
    goes_on s h =
        let z = s +ℤ pos 3600 in
        omega (
          int_laws,
          div_euclid_parts z 3600 (omega arith),
          rem_euclid-lt z 3600 (omega arith),
          div_euclid_parts s 3600 (omega arith),
        )

pub day-IsStep : IsStep 86400
day-IsStep = record {
  positive = omega arith;
  at_most = omega arith;
  clears = λ s. clears s;
  goes_on = λ s h. goes_on s h;
}
  where
    clears : (s : ℤ) → rem_euclid (s -ℤ pos (rem_euclid s 86400)) 86400 ≡ 0
    clears s =
        let z = s -ℤ pos (rem_euclid s 86400) in
        omega (
          int_laws,
          div_euclid_parts z 86400 (omega arith),
          rem_euclid-lt z 86400 (omega arith),
          div_euclid_parts s 86400 (omega arith),
        )

    goes_on : (s : ℤ) → rem_euclid s 86400 ≡ 0 → rem_euclid (s +ℤ pos 86400) 86400 ≡ 0
    goes_on s h =
        let z = s +ℤ pos 86400 in
        omega (
          int_laws,
          div_euclid_parts z 86400 (omega arith),
          rem_euclid-lt z 86400 (omega arith),
          div_euclid_parts s 86400 (omega arith),
        )

pub week-IsStep : IsStep 604800
week-IsStep = record {
  positive = omega arith;
  at_most = omega arith;
  clears = λ s. clears s;
  goes_on = λ s h. goes_on s h;
}
  where
    clears : (s : ℤ) → rem_euclid (s -ℤ pos (rem_euclid s 604800)) 604800 ≡ 0
    clears s =
        let z = s -ℤ pos (rem_euclid s 604800) in
        omega (
          int_laws,
          div_euclid_parts z 604800 (omega arith),
          rem_euclid-lt z 604800 (omega arith),
          div_euclid_parts s 604800 (omega arith),
        )

    goes_on : (s : ℤ) → rem_euclid s 604800 ≡ 0 → rem_euclid (s +ℤ pos 604800) 604800 ≡ 0
    goes_on s h =
        let z = s +ℤ pos 604800 in
        omega (
          int_laws,
          div_euclid_parts z 604800 (omega arith),
          rem_euclid-lt z 604800 (omega arith),
          div_euclid_parts s 604800 (omega arith),
        )

pub floor_to-steps :
    (d : ℕ) (s : ℤ)
    → 0 < d
    → d ≤ 604800
    → (pos_part s ≤ 2 ^ 61 + 2 ^ 60) × (neg_part s ≤ 2 ^ 61 + 2 ^ 60)
    → floor_to d s ≡ steps 0 d s
unfolding steps
floor_to-steps d s h k t =
    let zero_off : s +ℤ pos 0 ≡ s = omega int_laws in
    rw zero_off (floor_to-eq d s h k (omega arith))

pub week-steps :
    (s : ℤ)
    → (pos_part s ≤ 2 ^ 61 + 2 ^ 60) × (neg_part s ≤ 2 ^ 61 + 2 ^ 60)
    → truncate week s ≡ steps 259200 604800 s
unfolding truncate steps add_i64 sub_i64
week-steps s t =
    let u = s +ℤ pos 259200 in
    let lt = rem_euclid-lt u 604800 (omega arith) in
    let z = u -ℤ pos (rem_euclid u 604800) -ℤ pos 259200 in
    let back : z ≡ s -ℤ pos (rem_euclid u 604800) = omega int_laws in
    rw
      (
        wrap_id u (omega (int_laws, one_sign u)),
        floor_to-eq 604800 u (omega arith) (omega arith) (omega (int_laws, one_sign u)),
        wrap_id z (omega (int_laws, lt, one_sign z)),
      )
      back
