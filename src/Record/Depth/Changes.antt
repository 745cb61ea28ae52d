-- ===== src/Record/Depth/Changes.antt =====
-- crates/midgard-record/src/depth.rs: what `take_changed` reports after a list of events.
use midgard_rs.Common.{
  Bool, false, ◌||◌, ◌≡◌, refl, ap, sym, inl, inr, Bool-cases, subst, List, [], ◌∷◌, ◌++◌, map,
  arith, ◌∙◌,
}
use midgard_rs.Common.Text.{Text, text_eq, text_eq_iff, one_of}
use midgard_rs.Record.Rows.{Recorded}
use midgard_rs.Record.Depth.{Depth, DepthTracker, get, touch, apply_all, take_changed}
use midgard_rs.Record.Depth.Ledger.{all_bookings}
use midgard_rs.Record.Depth.Steps.{Steps, done, write, apply_all-Steps}

-- Some booking is on the pool.
abbrev pub books : Text → List (Text × Depth) → Bool
books p [] = false
books p ((q, c) ∷ bs) = text_eq p q || books p bs

-- No pool stands twice.
abbrev pub IsDistinct : List Text → Type 0
IsDistinct [] = Unit
IsDistinct (p ∷ ps) = (one_of p ps ≡ false) × IsDistinct ps

text_eq_comm : (s t : Text) → text_eq s t ≡ text_eq t s
unfolding text_eq
text_eq_comm [] [] = refl
text_eq_comm [] (c ∷ t) = refl
text_eq_comm (c ∷ s) [] = refl
text_eq_comm (c ∷ s) (d ∷ t) = ground (arith, text_eq_comm s t)

one_of-append :
    (p : Text) (ps : List Text) (q : Text) → one_of p (ps ++ q ∷ []) ≡ one_of p ps || text_eq p q
unfolding one_of
one_of-append p [] q = ground arith
one_of-append p (x ∷ ps) q = ground (arith, one_of-append p ps q)

append-IsDistinct :
    (ps : List Text) (q : Text) → one_of q ps ≡ false → IsDistinct ps → IsDistinct (ps ++ q ∷ [])
unfolding one_of
append-IsDistinct [] q h d = (h, d)
append-IsDistinct (p ∷ ps) q h (n, d) =
    let differs : text_eq q p ≡ false = ground arith in
    let fresh : one_of q ps ≡ false = ground arith in
    (rw (one_of-append p ps q, n, text_eq_comm p q) differs, append-IsDistinct ps q fresh d)

or_false : (a : Bool) → (a || false) ≡ a
or_false a = ground arith

or_assoc : (a b c : Bool) → (a || b || c) ≡ (a || (b || c))
or_assoc a b c = ground arith

-- What a touch does to the pools reported.
touch-one_of :
    (p q : Text) (w : Depth → Depth) (t : DepthTracker)
    → one_of p (touch q w t).dirty ≡ one_of p t.dirty || text_eq p q
unfolding touch
touch-one_of p q w t = elim (Bool-cases (one_of q t.dirty)) [
  | inl e ↦ rw e elim (Bool-cases (text_eq p q)) [
    | inl f ↦ rw (f, (text_eq_iff p q).0 f, e)
    | inr f ↦ rw f (sym (or_false (one_of p t.dirty)))
  ]
  | inr e ↦ rw (e, one_of-append p t.dirty q)
]

touch-IsDistinct :
    (q : Text) (w : Depth → Depth) (t : DepthTracker)
    → IsDistinct t.dirty
    → IsDistinct (touch q w t).dirty
unfolding touch
touch-IsDistinct q w t d = elim (Bool-cases (one_of q t.dirty)) [
  | inl e ↦ rw e d
  | inr e ↦ rw e (append-IsDistinct t.dirty q e d)
]

Steps-one_of :
    {u t : DepthTracker} {bs : List (Text × Depth)}
    → Steps u t bs
    → (p : Text) → one_of p u.dirty ≡ one_of p t.dirty || books p bs
Steps-one_of {u = u} done p = sym (or_false (one_of p u.dirty))
Steps-one_of (write t q w c bs h k) p =
    rw (Steps-one_of k p, touch-one_of p q w t)
      (or_assoc (one_of p t.dirty) (text_eq p q) (books p bs))

Steps-IsDistinct :
    {u t : DepthTracker} {bs : List (Text × Depth)}
    → Steps u t bs
    → IsDistinct t.dirty
    → IsDistinct u.dirty
Steps-IsDistinct done d = d
Steps-IsDistinct (write t q w c bs h k) d = Steps-IsDistinct k (touch-IsDistinct q w t d)

map_pools : (f : Text → Depth) (ps : List Text) → map (λ (p, d). p) (map (λ p. (p, f p)) ps) ≡ ps
map_pools f [] = refl
map_pools f (p ∷ ps) = ap (λ qs. p ∷ qs) (map_pools f ps)

abbrev pub pools : List (Text × Depth) → List Text
pools rows = map (λ (p, d). p) rows

-- A report of the events on `t`: each pool that an event books on has one row, which is its balances
-- now, and the tracker is left with nothing to report.
abbrev pub IsReport : List Recorded → DepthTracker → List (Text × Depth) × DepthTracker → Type 0
IsReport rs t (rows, left) =
    IsDistinct (pools rows)
    × ((p : Text) → one_of p (pools rows) ≡ books p (all_bookings rs))
    × (rows ≡ map (λ p. (p, get (apply_all rs t) p)) (pools rows))
    × (left.dirty ≡ [])
    × (left.current ≡ (apply_all rs t).current)

-- On a tracker with nothing to report, the pools that `take_changed` reports after a list of events
-- are the pools that some event books on, each once, with its depth after the last event; the
-- depths stay and the list of touched pools is emptied.
pub take_changed-IsReport :
    (rs : List Recorded) (t : DepthTracker)
    → t.dirty ≡ []
    → IsReport rs t (take_changed (apply_all rs t))
unfolding take_changed one_of
take_changed-IsReport rs t h =
    let u = apply_all rs t in
    let e : pools (map (λ p. (p, get u p)) u.dirty) ≡ u.dirty = map_pools (get u) u.dirty in
    let steps = apply_all-Steps rs t in
    let touched : (p : Text) → one_of p u.dirty ≡ books p (all_bookings rs) =
      λ p. rw (Steps-one_of steps p, h) refl in
    (
      subst IsDistinct (sym e) (Steps-IsDistinct steps (subst IsDistinct (sym h) tt)),
      (λ p. ap (one_of p) e ∙ touched p),
      ap (map (λ p. (p, get u p))) (sym e),
      refl,
      refl,
    )
