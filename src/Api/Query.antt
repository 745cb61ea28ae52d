-- ===== src/Api/Query.antt =====
-- crates/midgard-api/src/query.rs: the parameters of a query. The map of values has a key once. A
-- text is ordered by its code points, as the bytes of UTF-8 are.
pub mod Known
use midgard_rs.Common.{
  ℕ, Bool, true, false, ◌||◌, ◌&&◌, not, Option, none, some, List, [], ◌∷◌, ◌++◌, Result, ok, err,
  ok_or, map_err, ◌>>=◌, if◌then◌else◌, ltb, ◌==◌,
}
use midgard_rs.Common.Int.{ℤ}
use midgard_rs.Common.Text.{Text, codes, text_eq, one_of, is_nil, parse_i64}
use midgard_rs.Core.Error.{Error, bad_request}
use midgard_rs.Core.Time.{Second}
use midgard_rs.Buckets.Interval as Interval
use midgard_rs.Buckets.Interval.{Interval}
use midgard_rs.Buckets.Generate.{BucketParams}

pub record Params : Type 0 where
  pub values : List (Text × Text)
  pub consumed : List Text

-- `Params::new`
abbrev pub new : List (Text × Text) → Params
new values = record { values = values; consumed = [] }

abbrev pub get : List (Text × Text) → Text → Option Text
get [] key = none
get ((k, v) ∷ kvs) key = let later = get kvs key in if text_eq k key then some v else later

abbrev pub if_not_empty : Option Text → Option Text
if_not_empty none = none
if_not_empty (some v) = if is_nil v then none else some v

abbrev pub take : Text → Params → Option Text × Params
take key p = (if_not_empty (get p.values key), record p { consumed = p.consumed ++ key ∷ [] })

abbrev pub not_an_integer : Text → Text → Error
not_an_integer key v = bad_request (codes "'" ++ key ++ codes "' is not an integer: " ++ v)

abbrev pub parsed_i64 : Text → Option Text → Result Error (Option ℤ)
parsed_i64 key none = ok none
parsed_i64 key (some v) = elim (parse_i64 v) [
  | none ↦ err (not_an_integer key v)
  | some n ↦ ok (some n)
]

unfoldable pub take_i64 : Text → Params → Result Error (Option ℤ) × Params
take_i64 key p = let (v, after) = take key p in (parsed_i64 key v, after)

-- `Second` wraps the integer.
abbrev pub take_second : Text → Params → Result Error (Option Second) × Params
take_second key p = take_i64 key p

abbrev pub take_string : Text → Params → Option Text × Params
take_string key p = take key p

abbrev pub text_leb : Text → Text → Bool
text_leb [] t = true
text_leb (c ∷ s) [] = false
text_leb (c ∷ s) (d ∷ t) =
    let rest = text_leb s t in if ltb c d then true else if c == d then rest else false

abbrev pub insert : Text → List Text → List Text
insert s [] = s ∷ []
insert s (t ∷ ts) = let rest = insert s ts in if text_leb s t then s ∷ t ∷ ts else t ∷ rest

abbrev pub sort : List Text → List Text
sort [] = []
sort (s ∷ ss) = insert s (sort ss)

abbrev pub join : List Text → Text
join [] = []
join (s ∷ []) = s
join (s ∷ t ∷ ts) = s ++ codes ", " ++ join (t ∷ ts)

abbrev pub unknown_keys : List (Text × Text) → List Text → List Text
unknown_keys [] consumed = []
unknown_keys ((k, v) ∷ kvs) consumed =
    let rest = unknown_keys kvs consumed in if one_of k consumed then rest else k ∷ rest

abbrev pub rejected : List Text → Result Error Unit
rejected [] = ok tt
rejected (k ∷ ks) = err (bad_request (codes "unknown query parameter(s): " ++ join (sort (k ∷ ks))))

unfoldable pub reject_unknown : Params → Result Error Unit
reject_unknown p = rejected (unknown_keys p.values p.consumed)

abbrev pub parsed_interval : Option Text → Result Error (Option Interval)
parsed_interval none = ok none
parsed_interval (some raw) = elim (Interval.parse raw) [
  | none ↦ err (
      bad_request (
        codes "invalid interval '"
        ++ raw
        ++ codes "', accepted values: 5min, hour, day, week, month, quarter, year"))
  | some i ↦ ok (some i)
]

-- `?` on the result of an operation that also changes the parameters.
abbrev pub and_then :
    {A B : Type 0}
    → Result Error A × Params
    → (A → Params → Result Error B × Params)
    → Result Error B × Params
and_then (err e, p) next = (err e, p)
and_then (ok a, p) next = next a p

unfoldable pub buckets : Params → Result Error BucketParams × Params
buckets p = and_then (take_second (codes "from") p) (λ from p1.
    and_then (take_second (codes "to") p1) (λ to p2.
      and_then (take_i64 (codes "count") p2) (λ count p3.
        let (raw, p4) = take (codes "interval") p3 in
        and_then (parsed_interval raw, p4)
          (λ interval p5.
            (ok (record { from = from; to = to; count = count; interval = interval }), p5)))))
