-- ===== src/Record/Depth/Balances.antt =====
-- crates/midgard-record/src/depth.rs: the balances after a list of events are the exact sums of
-- what the events book, wrapped to i64.
use midgard_rs.Common.{
  ◌≡◌, refl, ap, sym, inl, inr, Bool-cases, subst, List, [], ◌∷◌, if◌then◌else◌, arith,
}
use midgard_rs.Common.Text.{Text, text_eq, text_eq_iff}
use midgard_rs.Record.Rows.{Recorded}
use midgard_rs.Record.Depth.{Depth, DepthTracker, lookup, insert, get, touch, apply_all}
use midgard_rs.Record.Depth.Ledger.{plus, wrapped, IsDepth, all_bookings, total}
use midgard_rs.Record.Depth.Sums.{wrapped-plus, wrapped-plus-no_depth, wrapped-IsDepth}
use midgard_rs.Record.Depth.Steps.{Steps, done, write, apply_all-Steps}

-- The map of the tracker.
lookup-insert :
    (m : List (Text × Depth)) (p q : Text) (v : Depth)
    → lookup (insert m p v) q ≡ (if text_eq p q then v else lookup m q)
lookup-insert [] p q v = ground arith
lookup-insert ((k, d) ∷ m) p q v = elim (Bool-cases (text_eq k p)) [
  | inl e ↦
      let same : k ≡ p = (text_eq_iff k p).0 e in
      rw (e, same) elim (Bool-cases (text_eq p q)) [ inl f ↦ rw f | inr f ↦ rw f ]
  | inr e ↦
      rw (e, lookup-insert m p q v)
        elim (Bool-cases (text_eq p q)) [
          | inl f ↦ rw (f, sym ((text_eq_iff p q).0 f), e)
          | inr f ↦ rw f
        ]
]

get-touch :
    (p q : Text) (w : Depth → Depth) (t : DepthTracker)
    → get (touch p w t) q ≡ (if text_eq p q then w (get t p) else get t q)
unfolding get touch
get-touch p q w t = lookup-insert t.current p q (w (lookup t.current p))

-- The exact sums of one pool.
total-cons :
    (p q : Text) (c : Depth) (bs : List (Text × Depth))
    → total q ((p, c) ∷ bs) ≡ (if text_eq p q then plus c (total q bs) else total q bs)
unfolding total
total-cons p q c bs = refl

Steps-get :
    {u t : DepthTracker} {bs : List (Text × Depth)}
    → Steps u t bs
    → (q : Text) → IsDepth (get t q)
    → get u q ≡ wrapped (plus (get t q) (total q bs))
unfolding total
Steps-get {t = t} done q i = wrapped-plus-no_depth (get t q) i
Steps-get {u = u} (write t p w c bs h k) q i = elim (Bool-cases (text_eq p q)) [
  | inl e ↦
      let same : p ≡ q = (text_eq_iff p q).0 e in
      let j : IsDepth (get t p) = subst (λ x. IsDepth (get t x)) (sym same) i in
      let now : get (touch p w t) q ≡ wrapped (plus (get t q) c) =
        rw (get-touch p q w t, e, h (get t p) j, ap (get t) same) in
      let j2 : IsDepth (get (touch p w t) q) =
        subst IsDepth (sym now) (wrapped-IsDepth (plus (get t q) c)) in
      rw (Steps-get k q j2, now, wrapped-plus (get t q) c (total q bs), e)
  | inr e ↦
      let now : get (touch p w t) q ≡ get t q = rw (get-touch p q w t, e) in
      rw (Steps-get k q (subst IsDepth (sym now) i), now, e)
]

-- After any list of events, each balance of a pool whose balances fit i64 is its balance before
-- plus the exact sum of what the events book on the pool, wrapped to i64 once at the end.
pub get-apply_all :
    (rs : List Recorded) (t : DepthTracker) (pool : Text)
    → IsDepth (get t pool)
    → get (apply_all rs t) pool ≡ wrapped (plus (get t pool) (total pool (all_bookings rs)))
get-apply_all rs t pool h = Steps-get (apply_all-Steps rs t) pool h
