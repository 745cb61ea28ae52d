-- ===== src/Api/Query/Known.antt =====
-- crates/midgard-api/src/query.rs: a query with a parameter that nobody asks for gets no answer.
use midgard_rs.Common.{
  ◌≡◌, refl, ap, ◌∙◌, true, Bool-cases, inl, inr, List, [], ◌∷◌, Result, ok, err, ok-injective,
}
use midgard_rs.Common.Text.{Text, codes, one_of}
use midgard_rs.Core.Error.{Error}
use midgard_rs.Buckets.Generate.{BucketParams}
use midgard_rs.Api.Query.{
  Params, new, get, if_not_empty, take_i64, parsed_i64, parsed_interval, and_then, buckets,
  unknown_keys, rejected, reject_unknown,
}

abbrev pub the_four : List Text
the_four = codes "from" ∷ codes "to" ∷ codes "count" ∷ codes "interval" ∷ []

abbrev pub AllKnown : List (Text × Text) → List Text → Type 0
AllKnown [] known = Unit
AllKnown ((k, v) ∷ kvs) known = (one_of k known ≡ true) × AllKnown kvs known

-- What the values say of the four parameters.
pub record Reads (values : List (Text × Text)) (b : BucketParams) : Type 0 where
  pub from_is : parsed_i64 (codes "from") (if_not_empty (get values (codes "from"))) ≡ ok b.from
  pub to_is : parsed_i64 (codes "to") (if_not_empty (get values (codes "to"))) ≡ ok b.to
  pub count_is : parsed_i64 (codes "count") (if_not_empty (get values (codes "count"))) ≡ ok b.count
  pub interval_is : parsed_interval (if_not_empty (get values (codes "interval"))) ≡ ok b.interval

and_then-eq-ok :
    {A B : Type 0} (r : Result Error A) (p : Params) (next : A → Params → Result Error B × Params)
    (b : B)
    → (and_then (r, p) next).0 ≡ ok b
    → (a : A) × (r ≡ ok a) × ((next a p).0 ≡ ok b) × (and_then (r, p) next ≡ next a p)
and_then-eq-ok (err e) p next b h = cc
and_then-eq-ok (ok a) p next b h = (a, refl, h, refl)

-- A success reads the four parameters and marks them.
pub buckets-Reads :
    (values : List (Text × Text)) (b : BucketParams)
    → (buckets (new values)).0 ≡ ok b
    → Reads values b × ((buckets (new values)).1 ≡ record { values = values; consumed = the_four })
unfolding buckets take_i64
buckets-Reads values b h =
    let (from, e1, h1, k1) =
      and_then-eq-ok (parsed_i64 (codes "from") (if_not_empty (get values (codes "from")))) _ _ b
        h in
    let (to, e2, h2, k2) =
      and_then-eq-ok (parsed_i64 (codes "to") (if_not_empty (get values (codes "to")))) _ _ b h1 in
    let (count, e3, h3, k3) =
      and_then-eq-ok (parsed_i64 (codes "count") (if_not_empty (get values (codes "count")))) _ _ b
        h2 in
    let (interval, e4, h4, k4) =
      and_then-eq-ok (parsed_interval (if_not_empty (get values (codes "interval")))) _ _ b h3 in
    let same = ok-injective h4 in
    (
      record {
        from_is = e1 ∙ ap ok (ap (λ x. x.from) same);
        to_is = e2 ∙ ap ok (ap (λ x. x.to) same);
        count_is = e3 ∙ ap ok (ap (λ x. x.count) same);
        interval_is = e4 ∙ ap ok (ap (λ x. x.interval) same);
      },
      ap (λ x. x.1) (k1 ∙ k2 ∙ k3 ∙ k4),
    )

not_unknown :
    (kvs : List (Text × Text)) (known : List Text)
    → unknown_keys kvs known ≡ []
    → AllKnown kvs known
not_unknown [] known h = tt
not_unknown ((k, v) ∷ kvs) known h = elim (Bool-cases (one_of k known)) [
  | inl e ↦ (e, not_unknown kvs known (rw (unknown_keys, e) at h))
  | inr e ↦ cc
]

rejected-eq-ok : (ks : List Text) → rejected ks ≡ ok tt → ks ≡ []
rejected-eq-ok [] h = refl
rejected-eq-ok (k ∷ ks) h = cc

pub reject_unknown-AllKnown : (p : Params) → reject_unknown p ≡ ok tt → AllKnown p.values p.consumed
unfolding reject_unknown
reject_unknown-AllKnown p h =
    not_unknown p.values p.consumed (rejected-eq-ok (unknown_keys p.values p.consumed) h)
