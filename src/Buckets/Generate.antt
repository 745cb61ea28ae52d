-- ===== src/Buckets/Generate.antt =====
-- crates/midgard-db/src/buckets.rs: bucket boundaries from query parameters. Of an error's message
-- the fixed beginning is kept. An index into `timestamps` is always in range where the program
-- indexes it; the model reads 0 elsewhere.
pub mod Boundaries
pub mod Restrict
pub mod Limits
use midgard_rs.Common.{
  ℕ, zero, suc, ◌+◌, ◌-◌, ◌*◌, Bool, true, false, ◌&&◌, ◌||◌, Option, none, some, List, [], ◌∷◌,
  Result, ok, err, ◌>>=◌, length, get_or, take, drop, ltb, if◌then◌else◌,
}
use midgard_rs.Common.Int.{ℤ, pos, pos_part, ltb_ℤ, leb_ℤ}
use midgard_rs.Common.Word.{add_i64, sub_i64, mul_i64}
use midgard_rs.Common.Text.{codes}
use midgard_rs.Core.Time.{Second, to_second}
use midgard_rs.Core.Error.{Error, bad_request}
use midgard_rs.Cursor.{BlockCursor, now_second}
use midgard_rs.Buckets.Interval.{Interval, max_duration, truncate, advance}

abbrev pub max_interval_count : ℕ
max_interval_count = 400

abbrev pub cutoff_window_multiple : ℕ
cutoff_window_multiple = 2 * max_interval_count

pub record Window : Type 0 where
  pub from : Second
  pub until : Second

pub record Buckets : Type 0 where
  pub timestamps : List Second
  pub interval : Option Interval

abbrev pub one : Second → Second → Buckets
one from until = record { timestamps = from ∷ until ∷ []; interval = none }

abbrev pub count : Buckets → ℕ
count b = length b.timestamps - 1

-- `Buckets::start`, `end` and `bucket`.
unfoldable pub start : Buckets → Second
start b = get_or b.timestamps 0 (pos 0)

unfoldable pub end : Buckets → Second
end b = get_or b.timestamps (length b.timestamps - 1) (pos 0)

unfoldable pub bucket : Buckets → ℕ → Window
bucket b i = record {
  from = get_or b.timestamps i (pos 0);
  until = get_or b.timestamps (i + 1) (pos 0);
}

pub record BucketParams : Type 0 where
  pub from : Option Second
  pub to : Option Second
  pub count : Option ℤ
  pub interval : Option Interval

-- The loop of `boundaries` and the push behind it, by the number of times that it may still run
-- before it breaks.
unfoldable pub collect : ℕ → Interval → Second → Second → List Second
collect zero i until t = t ∷ []
collect (suc left) i until t =
    let rest = collect left i until (advance i t) in if ltb_ℤ t until then t ∷ rest else t ∷ []

abbrev pub max_rounds : ℕ
max_rounds = max_interval_count + 3

unfoldable pub boundaries : Interval → Window → Result Error Buckets
boundaries i w =
    if leb_ℤ w.until w.from
    then err (bad_request (codes "'from' must be before 'to'"))
    else if ltb_ℤ (mul_i64 (pos (max_duration i)) cutoff_window_multiple) (sub_i64 w.until w.from)
    then err (bad_request (codes "Too wide range requested"))
    else let ts = collect max_rounds i w.until (truncate i w.from) in
      if ltb (length ts) 2
      then err (bad_request (codes "No interval requested"))
      else ok (record { timestamps = ts; interval = some i })

-- The first loop of `restrict`, on `last_ok`.
unfoldable pub last_kept : List Second → Second → ℕ → ℕ
last_kept ts last_block zero = 0
last_kept ts last_block (suc n) =
    let fewer = last_kept ts last_block n in
    if ltb 0 n && ltb_ℤ last_block (get_or ts n (pos 0)) then fewer else suc n

-- The second loop, on `first_ok`, by the rounds that are left until `last_ok - 1`.
unfoldable pub first_kept : List Second → Second → ℕ → ℕ → ℕ
first_kept ts first_block zero k = k
first_kept ts first_block (suc left) k =
    let more = first_kept ts first_block left (k + 1) in
    if ltb_ℤ (get_or ts (k + 1) (pos 0)) first_block then more else k

abbrev pub slice_inclusive : List Second → ℕ → ℕ → List Second
slice_inclusive ts a b = take (b - a + 1) (drop a ts)

unfoldable pub restrict_timestamps : Second → Second → List Second → List Second
restrict_timestamps first_block last_block ts =
    let last_ok = last_kept ts last_block (length ts - 1) in
    let first_ok = first_kept ts first_block (last_ok - 1) 0 in slice_inclusive ts first_ok last_ok

abbrev pub restrict : Second → Second → Buckets → Buckets
restrict first_block last_block b = record b {
  timestamps = restrict_timestamps first_block last_block b.timestamps;
}

-- `Option::unwrap_or`.
abbrev pub unwrap_or : Option Second → Second → Second
unwrap_or none d = d
unwrap_or (some s) d = s

abbrev pub is_some {ℓ} : {A : Type ℓ} → Option A → Bool
is_some none = false
is_some (some a) = true

-- `if buckets.count() > MAX_INTERVAL_COUNT { buckets.timestamps.truncate(…) }`
abbrev pub cap : Buckets → Buckets
cap b =
    if ltb max_interval_count (count b)
    then record b { timestamps = take (max_interval_count + 1) b.timestamps }
    else b

-- The window to search, and whether to trim from its start.
abbrev pub search_window : Option Second → Option Second → Second → ℤ → Window × Bool
search_window (some from) to now span = (record { from = from; until = add_i64 from span }, false)
search_window none to now span =
    let t = unwrap_or to now in (record { from = sub_i64 t span; until = t }, true)

abbrev pub trim : Bool → ℕ → Buckets → Buckets
trim trim_from_start n b =
    if ltb n (count b)
    then (if trim_from_start
        then record b { timestamps = drop (count b - n) b.timestamps }
        else record b { timestamps = take (n + 1) b.timestamps })
    else b

-- The three ways through `generate`.
unfoldable pub generate_span : BucketParams → Second → Second → Result Error Buckets
generate_span p first now =
    if is_some p.count
    then err (bad_request (codes "count was provided but no interval parameter."))
    else ok (one (unwrap_or p.from first) (unwrap_or p.to now))

unfoldable pub generate_range : BucketParams → Interval → Second → Second → Result Error Buckets
generate_range p i first now =
    boundaries i (record { from = unwrap_or p.from first; until = unwrap_or p.to now }) >>= λ b.
    ok (restrict first now (cap b))

unfoldable pub generate_count : BucketParams → Interval → ℤ → Second → Second → Result Error Buckets
generate_count p i n first now =
    let found = search_window p.from p.to now (mul_i64 n (max_duration i)) in
    if ltb_ℤ n (pos 1) || ltb_ℤ (pos max_interval_count) n
    then err (bad_request (codes "Count out of range"))
    else if is_some p.from && is_some p.to
    then err (bad_request (codes "Count and from and to was specified. Specify max 2 of them."))
    else (boundaries i found.0 >>= λ b. ok (trim found.1 (pos_part n) (restrict first now b)))

abbrev pub by_count : BucketParams → Interval → Option ℤ → Second → Second → Result Error Buckets
by_count p i none first now = generate_range p i first now
by_count p i (some n) first now = generate_count p i n first now

abbrev pub by_interval : BucketParams → Option Interval → Second → Second → Result Error Buckets
by_interval p none first now = generate_span p first now
by_interval p (some i) first now = by_count p i p.count first now

unfoldable pub generate : BucketParams → BlockCursor → Result Error Buckets
generate p c = by_interval p p.interval (to_second c.first.timestamp) (now_second c)
