-- ===== src/Buckets/Generate/Limits.antt =====
-- What `generate` answers: how many buckets, that they are consecutive, and when it refuses.
use midgard_rs.Common.{
  ℕ, zero, suc, ◌+◌, ◌-◌, ◌*◌, ◌≤◌, ◌<◌, ◌^◌, ◌≡◌, refl, sym, inl, inr, Bool, true, false, ◌&&◌,
  Option, none, some, List, [], ◌∷◌, ok, arith, length, take, drop, ltb, if◌then◌else◌, Bool-cases,
  subst, ◌∙◌, length-take, length-drop, ltb-false, ltb→lt, lt→ltb, ltb_false→le, >>=-eq-ok,
  ok-injective,
}
use midgard_rs.Common.Int.{ℤ, pos, negsuc, pos_part, neg_part, ◌+ℤ◌, ◌-ℤ◌, ◌*ℤ◌, int_laws, one_sign}
use midgard_rs.Common.Word.{add_i64, sub_i64, mul_i64, wrap_id}
use midgard_rs.Core.Time.{Second, to_second}
use midgard_rs.Cursor.{BlockCursor, now_second}
use midgard_rs.Buckets.Interval.{Interval, max_duration}
use midgard_rs.Buckets.Generate.{
  Window, Buckets, BucketParams, boundaries, restrict, cap, trim, search_window, unwrap_or, is_some,
  generate_range, generate_count, generate, by_count, by_interval, max_interval_count,
}
use midgard_rs.Buckets.Generate.Boundaries.{
  IsNear, IsSeries, IsCovering, IsAccepted, boundaries-IsCovering, boundaries-IsAccepted,
  max_duration_le,
}
use midgard_rs.Buckets.Generate.Restrict.{restrict_timestamps-IsRestricted}

drop-IsSeries : (i : Interval) (n : ℕ) (ts : List Second) → IsSeries i ts → IsSeries i (drop n ts)
drop-IsSeries i zero ts s = s
drop-IsSeries i (suc n) [] s = s
drop-IsSeries i (suc n) (t ∷ []) s = drop-IsSeries i n [] tt
drop-IsSeries i (suc n) (t ∷ u ∷ ts) s = drop-IsSeries i n (u ∷ ts) s.3

take-IsSeries : (i : Interval) (n : ℕ) (ts : List Second) → IsSeries i ts → IsSeries i (take n ts)
take-IsSeries i zero ts s = tt
take-IsSeries i (suc n) [] s = s
take-IsSeries i (suc zero) (t ∷ []) s = s
take-IsSeries i (suc (suc n)) (t ∷ []) s = s
take-IsSeries i (suc zero) (t ∷ u ∷ ts) s = s.0
take-IsSeries i (suc (suc n)) (t ∷ u ∷ ts) s = (s.0, s.1, s.2, take-IsSeries i (suc n) (u ∷ ts) s.3)

-- Consecutive edges of an interval, at least two and at most so many.
pub record IsAnswer (i : Interval) (limit : ℕ) (b : Buckets) : Type 0 where
  pub series : IsSeries i b.timestamps
  pub at_least : 2 ≤ length b.timestamps
  pub at_most : length b.timestamps ≤ limit + 1
  pub kind : b.interval ≡ some i

restrict-IsAnswer :
    (i : Interval) (limit : ℕ) (first now : Second) (b : Buckets)
    → IsAnswer i limit b
    → IsAnswer i limit (restrict first now b)
restrict-IsAnswer i limit first now b a =
    let r = restrict_timestamps-IsRestricted first now b.timestamps a.at_least in
    record {
      series = rw r.slice (take-IsSeries i _ _ (drop-IsSeries i r.skipped _ a.series));
      at_least = r.at_least;
      at_most = omega (arith, r.within, a.at_most);
      kind = a.kind;
    }

cap-IsAnswer : (i : Interval) (b : Buckets) → IsAnswer i 403 b → IsAnswer i 400 (cap b)
cap-IsAnswer i b a = elim (Bool-cases (ltb max_interval_count (length b.timestamps - 1))) [
  | inl e ↦ rw e (record {
    series = take-IsSeries i 401 _ a.series;
    at_least = omega (arith, length-take 401 b.timestamps);
    at_most = omega (arith, length-take 401 b.timestamps);
    kind = a.kind;
  })
  | inr e ↦ rw e (record {
    series = a.series;
    at_least = a.at_least;
    at_most = omega (arith, ltb_false→le _ _ e);
    kind = a.kind;
  })
]

trim-IsAnswer :
    (i : Interval) (side : Bool) (n : ℕ) (b : Buckets)
    → 1 ≤ n
    → IsAnswer i 403 b
    → IsAnswer i n (trim side n b)
trim-IsAnswer i side n b h a = elim (Bool-cases (ltb n (length b.timestamps - 1))) [
  | inl e ↦ rw e (cut side (ltb→lt _ _ e))
  | inr e ↦ rw e (record {
    series = a.series;
    at_least = a.at_least;
    at_most = omega (arith, ltb_false→le _ _ e);
    kind = a.kind;
  })
]
  where
    cut :
        (side : Bool)
        → n < length b.timestamps - 1
        → IsAnswer i n (
            if side
            then record b { timestamps = drop (length b.timestamps - 1 - n) b.timestamps }
            else record b { timestamps = take (n + 1) b.timestamps })
    cut true lt = record {
      series = drop-IsSeries i _ _ a.series;
      at_least = omega (arith, length-drop (length b.timestamps - 1 - n) b.timestamps);
      at_most = omega (arith, length-drop (length b.timestamps - 1 - n) b.timestamps);
      kind = a.kind;
    }
    cut false lt = record {
      series = take-IsSeries i (n + 1) _ a.series;
      at_least = omega (arith, length-take (n + 1) b.timestamps);
      at_most = omega (arith, length-take (n + 1) b.timestamps);
      kind = a.kind;
    }

covering-IsAnswer :
    (i : Interval) (w : Window) (b : Buckets)
    → IsNear w.from
    → IsNear w.until
    → boundaries i w ≡ ok b
    → IsAnswer i 403 b
covering-IsAnswer i w b nf nu e =
    let (b', e', c) = boundaries-IsCovering i w nf nu (boundaries-IsAccepted i w b nf nu e) in
    let same : b' ≡ b = cc in rw same at (answer b' c)
  where
    answer : (b' : Buckets) → IsCovering i w b' → IsAnswer i 403 b'
    answer b' c = record {
      series = c.series;
      at_least = c.at_least;
      at_most = omega (arith, c.at_most);
      kind = c.kind;
    }

-- Times that a request may name, with room for the search window.
abbrev pub IsSoon : Second → Type 0
IsSoon s = (pos_part s ≤ 2 ^ 59) × (neg_part s ≤ 2 ^ 59)

-- `p` is asked at a time when the chain has blocks from `first` to `now`.
pub record IsRequest (p : BucketParams) (first now : Second) : Type 0 where
  pub first_soon : IsSoon first
  pub now_soon : IsSoon now
  pub from_soon : IsSoon (unwrap_or p.from first)
  pub to_soon : IsSoon (unwrap_or p.to now)

pub generate_range-IsAnswer :
    (p : BucketParams) (i : Interval) (first now : Second) (b : Buckets)
    → IsRequest p first now
    → generate_range p i first now ≡ ok b
    → IsAnswer i 400 b
unfolding generate_range
generate_range-IsAnswer p i first now b h e =
    let w : Window = record { from = unwrap_or p.from first; until = unwrap_or p.to now } in
    let (b', found, rest) = >>=-eq-ok (boundaries i w) (λ b. ok (restrict first now (cap b))) e in
    rw (ok-injective rest) at (
      restrict-IsAnswer i 400 first now (cap b') (
        cap-IsAnswer i b'
          (covering-IsAnswer i w b' (omega (arith, h.from_soon)) (omega (arith, h.to_soon)) found)))

max_duration_ge : (i : Interval) → 300 ≤ max_duration i
unfolding max_duration
max_duration_ge Interval.min5 = omega arith
max_duration_ge _ = omega arith

pub span_lem :
    (i : Interval) (n : ℕ)
    → 1 ≤ n
    → n ≤ 400
    → (mul_i64 (pos n) (max_duration i) ≡ pos (n * max_duration i))
      × (1 ≤ n * max_duration i)
      × (n * max_duration i ≤ 400 * max_duration i)
unfolding mul_i64
span_lem i n lo hi =
    let least : 1 ≤ n * max_duration i = grind (arith, max_duration_ge i) in
    let most : n * max_duration i ≤ 400 * max_duration i = grind arith in
    let z = pos n *ℤ max_duration i in
    let exact : pos n *ℤ max_duration i ≡ pos (n * max_duration i) = omega int_laws in
    (wrap_id z (omega (int_laws, most, max_duration_le i, one_sign z)) ∙ exact, least, most)

-- The window that a count asks for is in range and never refused.
search_window-IsAccepted :
    (i : Interval) (from to : Option Second) (first now : Second) (n : ℕ)
    → IsSoon (unwrap_or from first)
    → IsSoon (unwrap_or to now)
    → 1 ≤ n
    → n ≤ 400
    → let w = (search_window from to now (mul_i64 (pos n) (max_duration i))).0 in
      IsNear w.from × IsNear w.until × IsAccepted i w
unfolding add_i64 sub_i64
search_window-IsAccepted i (some from) to first now n hf ht lo hi =
    let (e, least, most) = span_lem i n lo hi in
    let z = from +ℤ pos (n * max_duration i) in
    rw (e, wrap_id z (omega (int_laws, most, max_duration_le i, one_sign z)))
      (omega (int_laws, least, most, max_duration_le i, one_sign z))
search_window-IsAccepted i none to first now n hf ht lo hi =
    let (e, least, most) = span_lem i n lo hi in
    let z = unwrap_or to now -ℤ pos (n * max_duration i) in
    rw (e, wrap_id z (omega (int_laws, most, max_duration_le i, one_sign z)))
      (omega (int_laws, least, most, max_duration_le i, one_sign z))

-- For a count from 1 to 400, an interval and at most one of `from` and `to`, on times within 2^59
-- seconds of the epoch, `generate_count` returns buckets: consecutive edges of the interval, at
-- least 2 and at most one more than the count.
pub generate_count-total :
    (p : BucketParams) (i : Interval) (first now : Second) (n : ℕ)
    → IsRequest p first now
    → 1 ≤ n
    → n ≤ 400
    → is_some p.from && is_some p.to ≡ false
    → (b : Buckets) × (generate_count p i (pos n) first now ≡ ok b) × IsAnswer i n b
unfolding generate_count
generate_count-total p i first now n h lo hi ends =
    let found = search_window p.from p.to now (mul_i64 (pos n) (max_duration i)) in
    let (nf, nu, acc) =
      search_window-IsAccepted i p.from p.to first now n h.from_soon h.to_soon lo hi in
    let (b, e, c) = boundaries-IsCovering i found.0 nf nu acc in
    (
      trim found.1 n (restrict first now b),
      rw (ltb-false (n + 0) 1 (omega arith), ltb-false 400 (n + 0) (omega arith), ends, e),
      trim-IsAnswer i found.1 n (restrict first now b) lo (
          restrict-IsAnswer i 403 first now b (record {
            series = c.series;
            at_least = c.at_least;
            at_most = omega (arith, c.at_most);
            kind = c.kind;
          })),
    )

-- What a count has passed when it is answered.
pub record IsCounted (p : BucketParams) (n : ℤ) : Type 0 where
  pub buckets_asked : ℕ
  pub as_asked : n ≡ pos buckets_asked
  pub some_asked : 1 ≤ buckets_asked
  pub not_too_many : buckets_asked ≤ 400
  pub one_end : is_some p.from && is_some p.to ≡ false

generate_count-IsCounted :
    (p : BucketParams) (i : Interval) (first now : Second) (n : ℤ) (b : Buckets)
    → generate_count p i n first now ≡ ok b
    → IsCounted p n
unfolding generate_count
generate_count-IsCounted p i first now (negsuc n) b e =
    cc (rw (lt→ltb 0 (1 + suc n) (omega arith)) at e)
generate_count-IsCounted p i first now (pos n) b e = elim (Bool-cases (ltb (n + 0) 1)) [
  | inl low ↦ cc (rw low at e)
  | inr high ↦ elim (Bool-cases (ltb 400 (n + 0))) [
    | inl many ↦ cc (rw (high, many) at e)
    | inr few ↦ elim (Bool-cases (is_some p.from && is_some p.to)) [
      | inl both ↦ cc (rw (high, few, both) at e)
      | inr ends ↦ record {
        buckets_asked = n;
        as_asked = refl;
        some_asked = omega (arith, ltb_false→le _ _ high);
        not_too_many = omega (arith, ltb_false→le _ _ few);
        one_end = ends;
      }
    ]
  ]
]

-- For a request with an interval, on times within 2^59 seconds of the epoch, whatever buckets
-- `generate` returns are of that interval and a series of consecutive edges of it, at least 2 and
-- at most 401.
pub generate-IsAnswer :
    (p : BucketParams) (c : BlockCursor) (i : Interval) (b : Buckets)
    → p.interval ≡ some i
    → IsRequest p (to_second c.first.timestamp) (now_second c)
    → generate p c ≡ ok b
    → IsAnswer i 400 b
unfolding generate
generate-IsAnswer p c i b pi h e =
    answer p.count (subst (λ o. by_interval p o first now ≡ ok b) pi e)
  where
    first : Second
    first = to_second c.first.timestamp

    now : Second
    now = now_second c

    widen : (b : Buckets) (k : ℕ) → k ≤ 400 → IsAnswer i k b → IsAnswer i 400 b
    widen b k le a = record {
      series = a.series;
      at_least = a.at_least;
      at_most = omega (arith, a.at_most);
      kind = a.kind;
    }

    counted : (n : ℤ) → IsCounted p n → generate_count p i n first now ≡ ok b → IsAnswer i 400 b
    counted n k e =
        let (b', e', a) =
          generate_count-total p i first now k.buckets_asked h k.some_asked k.not_too_many
            k.one_end in
        let same : b' ≡ b = ok-injective (sym e' ∙ (rw k.as_asked at e)) in
        rw same at (widen b' k.buckets_asked k.not_too_many a)

    answer : (n : Option ℤ) → by_count p i n first now ≡ ok b → IsAnswer i 400 b
    answer none e = generate_range-IsAnswer p i first now b h e
    answer (some n) e = counted n (generate_count-IsCounted p i first now n b e) e
