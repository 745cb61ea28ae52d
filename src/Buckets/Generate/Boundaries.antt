-- ===== src/Buckets/Generate/Boundaries.antt =====
-- What `boundaries` returns: consecutive edges of the interval that cover the window.
use midgard_rs.Common.{
  ℕ, zero, suc, ◌+◌, ◌*◌, ◌≤◌, ◌^◌, ◌≡◌, refl, sym, ◌⊎◌, inl, inr, some, List, [], ◌∷◌, ok, arith,
  length, get_or, ltb, Bool-cases, ◌∙◌, leb-false, ltb-false, ltb_false→le,
}
use midgard_rs.Common.Int.{
  pos, pos_part, neg_part, ◌+ℤ◌, ◌-ℤ◌, ◌*ℤ◌, ◌≤ℤ◌, ◌<ℤ◌, ltb_ℤ, int_laws, one_sign,
}
use midgard_rs.Common.Word.{sub_i64, mul_i64, wrap_id}
use midgard_rs.Core.Time.{Second}
use midgard_rs.Buckets.Interval.{Interval, max_duration, truncate, advance}
use midgard_rs.Buckets.Interval.Rounding.{IsTime}
use midgard_rs.Buckets.Interval.Rounds.{truncate-Rounds}
use midgard_rs.Buckets.Generate.{
  Window, Buckets, max_rounds, collect, boundaries, cutoff_window_multiple,
}

-- A time that the window of a request may reach to.
abbrev pub IsNear : Second → Type 0
IsNear s = (pos_part s ≤ 2 ^ 60) × (neg_part s ≤ 2 ^ 60)

-- Edges of the interval, each the next one after the one before.
abbrev pub IsSeries : Interval → List Second → Type 0
IsSeries i [] = Unit
IsSeries i (t ∷ []) = truncate i t ≡ t
IsSeries i (t ∷ u ∷ ts) = (truncate i t ≡ t) × (u ≡ advance i t) × (t <ℤ u) × IsSeries i (u ∷ ts)

-- The next edge after an edge.
edge_step :
    (i : Interval) (t : Second)
    → IsTime t
    → truncate i t ≡ t
    → (t <ℤ advance i t) × (truncate i (advance i t) ≡ advance i t)
edge_step i t h e = let r = truncate-Rounds i t h in (rw e at r.above, rw e at r.next_fixed)

abbrev pub last : Second → List Second → Second
last t [] = t
last t (u ∷ ts) = last u ts

pub record IsCollected (i : Interval) (until t : Second) (left : ℕ) (ts : List Second)
    : Type 0 where
  pub series : IsSeries i ts
  pub begins : get_or ts 0 (pos 0) ≡ t
  pub some_edges : 1 ≤ length ts
  pub at_most : length ts ≤ left + 1
  pub reaches : (until ≤ℤ last (pos 0) ts) ⊎ (length ts ≡ left + 1)
  pub two : t <ℤ until → 1 ≤ left → 2 ≤ length ts

-- An edge in front of the edges from the next one on.
cons-IsCollected :
    (i : Interval) (until t : Second) (left : ℕ) (ts : List Second)
    → truncate i t ≡ t
    → t <ℤ advance i t
    → IsCollected i until (advance i t) left ts
    → IsCollected i until t (suc left) (t ∷ ts)
cons-IsCollected i until t left [] e lt c = absurd (omega (arith, c.some_edges))
cons-IsCollected i until t left (u ∷ ts) e lt c = record {
  series = (e, c.begins, rw c.begins lt, c.series);
  begins = refl;
  some_edges = omega arith;
  at_most = omega (arith, c.at_most);
  reaches = far c.reaches;
  two = λ p q. omega arith;
}
  where
    far :
        (until ≤ℤ last u ts) ⊎ (suc (length ts) ≡ left + 1)
        → (until ≤ℤ last u ts) ⊎ (suc (suc (length ts)) ≡ suc left + 1)
    far (inl r) = inl r
    far (inr r) = inr (omega arith)

collect-IsCollected :
    (left : ℕ) (i : Interval) (until t : Second)
    → (neg_part t ≤ 2 ^ 61)
    → (pos_part until ≤ 2 ^ 61)
    → truncate i t ≡ t
    → IsCollected i until t left (collect left i until t)
unfolding collect
collect-IsCollected zero i until t lo hi e = record {
  series = e;
  begins = refl;
  some_edges = omega arith;
  at_most = omega arith;
  reaches = inr (omega arith);
  two = λ p q. absurd (omega arith);
}
collect-IsCollected (suc left) i until t lo hi e = elim (Bool-cases (ltb_ℤ t until)) [
  | inl b ↦
      let next = edge_step i t (ground arith) e in
      rw b (
        cons-IsCollected i until t left _ e next.0 (
          collect-IsCollected left i until (advance i t)
            (omega (arith, next.0, one_sign (advance i t))) hi next.1))
  | inr b ↦ rw b (record {
    series = e;
    begins = refl;
    some_edges = omega arith;
    at_most = omega arith;
    reaches = inl (ground arith);
    two = λ p q. absurd (ground arith);
  })
]

-- Consecutive edges from the one at or before `from`, which reach `until` or are 404.
pub record IsCovering (i : Interval) (w : Window) (b : Buckets) : Type 0 where
  pub series : IsSeries i b.timestamps
  pub at_least : 2 ≤ length b.timestamps
  pub at_most : length b.timestamps ≤ 404
  pub begins : get_or b.timestamps 0 (pos 0) ≡ truncate i w.from
  pub reaches : (w.until ≤ℤ last (pos 0) b.timestamps) ⊎ (length b.timestamps ≡ 404)
  pub kind : b.interval ≡ some i

abbrev pub IsAccepted : Interval → Window → Type 0
IsAccepted i w = (w.from <ℤ w.until) × (w.until ≤ℤ w.from +ℤ pos (max_duration i * 800))

pub max_duration_le : (i : Interval) → max_duration i ≤ 31622400
unfolding max_duration
max_duration_le Interval.min5 = omega arith
max_duration_le _ = omega arith

-- The window is no wider than the limit, in the program's arithmetic.
width_test :
    (i : Interval) (w : Window)
    → IsNear w.from
    → IsNear w.until
    → ltb_ℤ (mul_i64 (pos (max_duration i)) cutoff_window_multiple) (sub_i64 w.until w.from)
      ≡ ltb_ℤ (w.from +ℤ pos (max_duration i * 800)) w.until
unfolding mul_i64 sub_i64
width_test i w nf nu =
    let z = w.until -ℤ w.from in
    let m = pos (max_duration i) *ℤ 800 in
    rw
      (
        wrap_id z (omega (int_laws, one_sign z)),
        wrap_id m (omega (int_laws, max_duration_le i, one_sign m)),
      )
      (same_test _ _ _ _ (omega int_laws))
  where
    same_test : (a b c d : ℕ) → a + d ≡ c + b → ltb a b ≡ ltb c d
    same_test a b c d h = ground arith

first_edge :
    (i : Interval) (w : Window)
    → IsNear w.from
    → IsNear w.until
    → w.from <ℤ w.until
    → IsCollected i w.until
        (truncate i w.from)
        max_rounds
        (collect max_rounds i w.until (truncate i w.from))
first_edge i w nf nu lt =
    let r = truncate-Rounds i w.from (omega arith) in
    collect-IsCollected max_rounds i w.until (truncate i w.from)
      (omega (int_laws, r.above, r.longest, max_duration_le i, one_sign (truncate i w.from)))
      (omega arith) r.fixed

-- For a window within 2^60 seconds of the epoch that is neither empty nor reversed and no wider
-- than 800 times the longest duration of the interval, `boundaries` returns at least 2 and at most
-- 404 consecutive edges that begin with the edge at or before the start of the window and reach its
-- end, unless 404 edges are not enough.
pub boundaries-IsCovering :
    (i : Interval) (w : Window)
    → IsNear w.from
    → IsNear w.until
    → IsAccepted i w
    → (b : Buckets) × (boundaries i w ≡ ok b) × IsCovering i w b
unfolding boundaries
boundaries-IsCovering i w nf nu a =
    let c = first_edge i w nf nu a.0 in
    let r = truncate-Rounds i w.from (omega arith) in
    let two = c.two (omega (arith, r.below, a.0)) (omega arith) in
    (
      record { timestamps = collect max_rounds i w.until (truncate i w.from); interval = some i },
      rw (leb-false _ _ a.0, width_test i w nf nu, ltb-false _ _ a.1, ltb-false _ _ two),
      record {
        series = c.series;
        at_least = two;
        at_most = c.at_most;
        begins = c.begins;
        reaches = c.reaches;
        kind = refl;
      },
    )

pub boundaries-IsAccepted :
    (i : Interval) (w : Window) (b : Buckets)
    → IsNear w.from
    → IsNear w.until
    → boundaries i w ≡ ok b
    → IsAccepted i w
unfolding boundaries
boundaries-IsAccepted i w b nf nu e =
    (ground arith, ltb_false→le _ _ (sym (width_test i w nf nu) ∙ ground arith))
