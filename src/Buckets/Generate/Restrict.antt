-- ===== src/Buckets/Generate/Restrict.antt =====
-- `restrict` keeps a run of the boundaries: at most one before the first block and at most one after
-- the last, and never fewer than two.
use midgard_rs.Common.{
  ℕ, zero, suc, ◌+◌, ◌-◌, ◌≤◌, ◌<◌, ◌≡◌, refl, ◌⊎◌, inl, inr, false, List, arith, length, get_or,
  take, drop, Bool-cases, ◌∙◌, ltb→lt, lt→ltb, ltb_false→le, get_or-take, get_or-drop, length-take,
  length-drop,
}
use midgard_rs.Common.Int.{pos, ◌≤ℤ◌, ◌<ℤ◌, ltb_ℤ}
use midgard_rs.Core.Time.{Second}
use midgard_rs.Buckets.Generate.{last_kept, first_kept, restrict_timestamps}

-- The boundary at an index.
abbrev pub nth : List Second → ℕ → Second
nth ts k = get_or ts k (pos 0)

record IsLastKept (ts : List Second) (last_block : Second) (n m : ℕ) : Type 0 where
  some_left : 1 ≤ m
  at_most : m ≤ n
  stops : (m ≡ 1) ⊎ (nth ts (m - 1) ≤ℤ last_block)
  dropped : (k : ℕ) → m ≤ k → k < n → last_block <ℤ nth ts k

-- An index below a bound is the last one or lies below the bound before it.
below_suc : (k n : ℕ) → k < suc n → (k < n) ⊎ (k ≡ n)
below_suc k n h = omega arith

drop_last :
    (ts : List Second) (lb : Second) (n m : ℕ)
    → lb <ℤ nth ts n
    → IsLastKept ts lb n m
    → IsLastKept ts lb (suc n) m
drop_last ts lb n m lt ih = record {
  some_left = ih.some_left;
  at_most = omega (arith, ih.at_most);
  stops = ih.stops;
  dropped = λ k a b. elim (below_suc k n b) [ inl less ↦ ih.dropped k a less | inr e ↦ rw e lt ];
}

keep_last :
    (ts : List Second) (lb : Second) (n : ℕ)
    → ltb_ℤ lb (nth ts n) ≡ false
    → IsLastKept ts lb (suc n) (suc n)
keep_last ts lb n e =
    let before : suc n - 1 ≡ n = omega arith in
    record {
      some_left = omega arith;
      at_most = omega arith;
      stops = inr (rw before (ltb_false→le _ _ e));
      dropped = λ k a b. absurd (omega arith);
    }

last_kept-IsLastKept :
    (ts : List Second) (last_block : Second) (n : ℕ)
    → 1 ≤ n
    → IsLastKept ts last_block n (last_kept ts last_block n)
unfolding last_kept
last_kept-IsLastKept ts lb zero h = absurd (omega arith)
last_kept-IsLastKept ts lb (suc zero) h = record {
  some_left = omega arith;
  at_most = omega arith;
  stops = inl refl;
  dropped = λ k a b. absurd (omega arith);
}
last_kept-IsLastKept ts lb (suc (suc n)) h = elim (Bool-cases (ltb_ℤ lb (nth ts (suc n)))) [
  | inl e ↦
      rw (lt→ltb 0 (suc n) (omega arith), e)
        (drop_last ts lb (suc n) _ (ltb→lt _ _ e)
          (last_kept-IsLastKept ts lb (suc n) (omega arith)))
  | inr e ↦ rw (lt→ltb 0 (suc n) (omega arith), e) (keep_last ts lb (suc n) e)
]

record IsFirstKept (ts : List Second) (first_block : Second) (left k m : ℕ) : Type 0 where
  at_least : k ≤ m
  at_most : m ≤ k + left
  stops : (m ≡ k + left) ⊎ (first_block ≤ℤ nth ts (m + 1))
  dropped : (j : ℕ) → k < j → j ≤ m → nth ts j <ℤ first_block

skip_first :
    (ts : List Second) (fb : Second) (left k m : ℕ)
    → nth ts (k + 1) <ℤ fb
    → IsFirstKept ts fb left (k + 1) m
    → IsFirstKept ts fb (suc left) k m
skip_first ts fb left k m lt ih = record {
  at_least = omega (arith, ih.at_least);
  at_most = omega (arith, ih.at_most);
  stops = stop ih.stops;
  dropped = λ j a b. elim (above_suc j a) [ inl more ↦ ih.dropped j more b | inr e ↦ rw e lt ];
}
  where
    stop : (m ≡ k + 1 + left) ⊎ (fb ≤ℤ nth ts (m + 1)) → (m ≡ k + suc left) ⊎ (fb ≤ℤ nth ts (m + 1))
    stop (inl e) = inl (omega arith)
    stop (inr e) = inr e

    above_suc : (j : ℕ) → k < j → (k + 1 < j) ⊎ (j ≡ k + 1)
    above_suc j a = omega arith

first_kept-IsFirstKept :
    (ts : List Second) (first_block : Second) (left k : ℕ)
    → IsFirstKept ts first_block left k (first_kept ts first_block left k)
unfolding first_kept
first_kept-IsFirstKept ts fb zero k = record {
  at_least = omega arith;
  at_most = omega arith;
  stops = inl (omega arith);
  dropped = λ j a b. absurd (omega arith);
}
first_kept-IsFirstKept ts fb (suc left) k = elim (Bool-cases (ltb_ℤ (nth ts (k + 1)) fb)) [
  | inl e ↦
      rw e (skip_first ts fb left k _ (ltb→lt _ _ e) (first_kept-IsFirstKept ts fb left (k + 1)))
  | inr e ↦ rw e (record {
    at_least = omega arith;
    at_most = omega arith;
    stops = inr (ltb_false→le _ _ e);
    dropped = λ j a b. absurd (omega arith);
  })
]

-- What is left of the boundaries `ts`: those at `skipped`, `skipped + 1`, and so on.
pub record IsRestricted (first_block last_block : Second) (ts rs : List Second) : Type 0 where
  pub skipped : ℕ
  pub at_least : 2 ≤ length rs
  pub within : skipped + length rs ≤ length ts
  pub kept : (k : ℕ) → k < length rs → nth rs k ≡ nth ts (skipped + k)
  pub slice : rs ≡ take (length rs) (drop skipped ts)
  pub one_before : (length rs ≡ 2) ⊎ (first_block ≤ℤ nth rs 1)
  pub one_after : (length rs ≡ 2) ⊎ (nth rs (length rs - 2) ≤ℤ last_block)
  pub too_early : (k : ℕ) → 1 ≤ k → k ≤ skipped → nth ts k <ℤ first_block
  pub too_late : (k : ℕ) → skipped + length rs ≤ k + 1 → k + 1 < length ts → last_block <ℤ nth ts k

-- Of at least two boundaries `restrict` keeps a run of at least two; unless just two are kept, at
-- most one of them is before the first block and at most one after the last; and it drops only
-- boundaries before the first block in front and boundaries after the last block behind.
pub restrict_timestamps-IsRestricted :
    (first_block last_block : Second) (ts : List Second)
    → 2 ≤ length ts
    → IsRestricted first_block last_block ts (restrict_timestamps first_block last_block ts)
unfolding restrict_timestamps
restrict_timestamps-IsRestricted fb lb ts h = record {
  skipped = f;
  at_least = omega (arith, size, F.at_most, L.some_left);
  within = omega (arith, size, F.at_most, L.at_most, L.some_left);
  kept = λ k lt. same k (omega (arith, size));
  slice = rw size;
  one_before = before F.stops;
  one_after = after L.stops;
  too_early = λ k a b. F.dropped k a b;
  too_late = λ k a b. L.dropped k (omega (arith, size, F.at_most, L.some_left)) (omega arith);
}
  where
    l : ℕ
    l = last_kept ts lb (length ts - 1)

    f : ℕ
    f = first_kept ts fb (l - 1) 0

    L : IsLastKept ts lb (length ts - 1) l
    L = last_kept-IsLastKept ts lb (length ts - 1) (omega arith)

    F : IsFirstKept ts fb (l - 1) 0 f
    F = first_kept-IsFirstKept ts fb (l - 1) 0

    size : length (take (l - f + 1) (drop f ts)) ≡ l - f + 1
    size = omega (
      arith,
      length-take (l - f + 1) (drop f ts),
      length-drop f ts,
      L.at_most,
      L.some_left,
      F.at_most,
    )

    same : (k : ℕ) → k < l - f + 1 → nth (take (l - f + 1) (drop f ts)) k ≡ nth ts (f + k)
    same k lt = get_or-take (l - f + 1) (drop f ts) k (pos 0) lt ∙ get_or-drop f ts k (pos 0)

    rs : List Second
    rs = take (l - f + 1) (drop f ts)

    before : (f ≡ 0 + (l - 1)) ⊎ (fb ≤ℤ nth ts (f + 1)) → (length rs ≡ 2) ⊎ (fb ≤ℤ nth rs 1)
    before (inl e) = inl (omega (arith, size, L.some_left))
    before (inr e) = inr (rw (same 1 (omega (arith, F.at_most, L.some_left))) e)

    after : (l ≡ 1) ⊎ (nth ts (l - 1) ≤ℤ lb) → (length rs ≡ 2) ⊎ (nth rs (length rs - 2) ≤ℤ lb)
    after (inl e) = inl (omega (arith, size, F.at_most))
    after (inr e) =
        let spot : f + (length rs - 2) ≡ l - 1 = omega (arith, size, F.at_most, L.some_left) in
        inr (rw (same (length rs - 2) (omega (arith, size, F.at_most, L.some_left)), spot) e)
