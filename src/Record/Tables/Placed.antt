-- ===== src/Record/Tables/Placed.antt =====
-- crates/midgard-record/src/writer.rs: the rows that `write_events` stores are those of its events.
use midgard_rs.Common.{◌≡◌, refl, sym, ap, subst, ◌∙◌, Option, none, some, List, [], ◌∷◌, ◌++◌, map}
use mathlib.Core.List.{Permᴰ, append_assoc, append-nil}
use mathlib.Core.List.Permᴰ
use midgard_rs.Common.Int.{ℤ}
use midgard_rs.Common.Text.{Text, codes}
use midgard_rs.Record.Rows as Rows
use midgard_rs.Record.Rows.{Recorded}
use midgard_rs.Record.Writer.{Pending}
use midgard_rs.Record.Values.{Value}
use midgard_rs.Record.Inserts.{Insert, columns, first_inserts, last_inserts}
use midgard_rs.Record.Tables.{
  Statement, bind, matching, statement, run_inserts, entry_rows, entries_of, reward_entries,
  write_events,
}
use midgard_rs.Record.Tables.Fields.{Row, share, rows_of, rows_of_all}

-- The values of a row under their columns.
abbrev pub named : List Text → List Value → List (Text × Value)
named [] vs = []
named (c ∷ cs) [] = []
named (c ∷ cs) (v ∷ vs) = (c, v) ∷ named cs vs

abbrev placed_rows : Text → List Text → List (List Value) → List Row
placed_rows table cols [] = []
placed_rows table cols (r ∷ rs) = (table, named cols r) ∷ placed_rows table cols rs

-- The rows that statements store, in their order.
abbrev pub placed : List Statement → List Row
placed [] = []
placed (s ∷ ss) = placed_rows s.table s.columns s.rows ++ placed ss

placed-append : (ss ts : List Statement) → placed (ss ++ ts) ≡ placed ss ++ placed ts
placed-append [] ts = refl
placed-append (s ∷ ss) ts =
    ap (λ x. placed_rows s.table s.columns s.rows ++ x) (placed-append ss ts)
    ∙ sym (append_assoc (placed_rows s.table s.columns s.rows) (placed ss) (placed ts))

placed-statement :
    (table : Text) (cols : List Text) (rs : List (List Value))
    → placed (statement table cols rs) ≡ placed_rows table cols rs
placed-statement table cols [] = refl
placed-statement table cols (r ∷ rs) = append-nil (placed_rows table cols (r ∷ rs))

placed_rows-append :
    (table : Text) (cols : List Text) (rs qs : List (List Value))
    → placed_rows table cols (rs ++ qs) ≡ placed_rows table cols rs ++ placed_rows table cols qs
placed_rows-append table cols [] qs = refl
placed_rows-append table cols (r ∷ rs) qs =
    ap (λ x. (table, named cols r) ∷ x) (placed_rows-append table cols rs qs)

-- Two lists that gain their parts gain them together.
shuffle :
    {A : Type 0} {xs' ys' : List A} (x xs y ys : List A)
    → Permᴰ xs' (x ++ xs)
    → Permᴰ ys' (y ++ ys)
    → Permᴰ (xs' ++ ys') ((x ++ y) ++ (xs ++ ys))
shuffle {A} {xs'} {ys'} x xs y ys p q =
    let inner : Permᴰ (xs ++ (y ++ ys)) (y ++ (xs ++ ys)) =
      subst (λ l. Permᴰ l (y ++ (xs ++ ys))) (append_assoc xs y ys)
        (subst (Permᴰ ((xs ++ y) ++ ys)) (append_assoc y xs ys)
          (Permᴰ.append_right ys (Permᴰ.append_comm xs y))) in
    let both : Permᴰ (x ++ (xs ++ (y ++ ys))) ((x ++ y) ++ (xs ++ ys)) =
      subst (Permᴰ (x ++ (xs ++ (y ++ ys)))) (sym (append_assoc x y (xs ++ ys)))
        (Permᴰ.append_left x inner) in
    Permᴰ.trans (Permᴰ.append_right ys' p) (
      Permᴰ.trans (Permᴰ.append_left (x ++ xs) q)
        (subst (λ l. Permᴰ l ((x ++ y) ++ (xs ++ ys))) (sym (append_assoc x xs (y ++ ys))) both))

-- What the inserts make of one event.
abbrev hit : Insert → Pending → Option (List Value) → List Row
hit i p none = []
hit i p (some vs) = (i.table, named i.columns (bind p vs)) ∷ []

abbrev hits : List Insert → Pending → Recorded → List Row
hits [] p r = []
hits (i ∷ is) p r = hit i p (i.values r) ++ hits is p r

placed_rows-matching :
    (i : Insert) (p : Pending) (ps : List Pending)
    → placed_rows i.table i.columns (matching i.values (p ∷ ps))
      ≡ hit i p (i.values p.content) ++ placed_rows i.table i.columns (matching i.values ps)
placed_rows-matching i p ps = by_value (i.values p.content)
  where
    by_value :
        (o : Option (List Value))
        → placed_rows i.table i.columns
            (elim o [ none ↦ matching i.values ps | some vs ↦ bind p vs ∷ matching i.values ps ])
          ≡ hit i p o ++ placed_rows i.table i.columns (matching i.values ps)
    by_value none = refl
    by_value (some vs) = refl

placed-run_inserts :
    (is : List Insert) (p : Pending) (ps : List Pending)
    → Permᴰ (placed (run_inserts is (p ∷ ps))) (hits is p p.content ++ placed (run_inserts is ps))
unfolding run_inserts
placed-run_inserts [] p ps = Permᴰ.nil
placed-run_inserts (i ∷ is) p ps =
    let old = placed_rows i.table i.columns (matching i.values ps) in
    let one = hit i p (i.values p.content) in
    let before : placed (statement i.table i.columns (matching i.values (p ∷ ps))) ≡ one ++ old =
      placed-statement i.table i.columns (matching i.values (p ∷ ps))
      ∙ placed_rows-matching i p ps in
    let after : placed (statement i.table i.columns (matching i.values ps)) ≡ old =
      placed-statement i.table i.columns (matching i.values ps) in
    rw
      (
        placed-append (statement i.table i.columns (matching i.values (p ∷ ps)))
            (run_inserts is (p ∷ ps)),
        placed-append (statement i.table i.columns (matching i.values ps)) (run_inserts is ps),
        before,
        after,
      )
      (shuffle one old (hits is p p.content) (placed (run_inserts is ps)) (Permᴰ.refl (one ++ old))
        (placed-run_inserts is p ps))

-- The table of the rewards of single pools.
abbrev entries_columns : List Text
entries_columns = columns (codes "pool" ∷ codes "rune_e8" ∷ codes "saver_e8" ∷ [])

abbrev entries : List (List Value) → List Row
entries = placed_rows (codes "rewards_event_entries") entries_columns

entries-entry_rows :
    (p : Pending) (xs : List (Text × ℤ)) → entries (entry_rows p xs) ≡ map (share p) xs
entries-entry_rows p [] = refl
entries-entry_rows p ((pool, n) ∷ xs) = ap (λ x. share p (pool, n) ∷ x) (entries-entry_rows p xs)

-- An event belongs to one table, with the columns of its variant, and rewards to one more.
hits-rows_of :
    (p : Pending) (r : Recorded)
    → hits first_inserts p r ++ (entries (entries_of p r) ++ hits last_inserts p r) ≡ rows_of p r
hits-rows_of p (Rows.rewards v) =
    ap (λ x. hits first_inserts p (Rows.rewards v) ++ x)
      (append-nil (entries (entry_rows p v.per_pool)) ∙ entries-entry_rows p v.per_pool)
hits-rows_of p r = refl

placed-parts :
    (ps : List Pending)
    → placed (write_events ps)
      ≡ placed (run_inserts first_inserts ps)
        ++ (entries (reward_entries ps) ++ placed (run_inserts last_inserts ps))
unfolding write_events
placed-parts ps =
    let rewarded = statement (codes "rewards_event_entries") entries_columns (reward_entries ps) in
    placed-append (run_inserts first_inserts ps) (rewarded ++ run_inserts last_inserts ps)
    ∙ ap (λ x. placed (run_inserts first_inserts ps) ++ x)
        (placed-append rewarded (run_inserts last_inserts ps)
          ∙ ap (λ x. x ++ placed (run_inserts last_inserts ps))
              (placed-statement (codes "rewards_event_entries") entries_columns
                (reward_entries ps)))

nothing_placed : (is : List Insert) → placed (run_inserts is []) ≡ []
unfolding run_inserts
nothing_placed [] = refl
nothing_placed (i ∷ is) = nothing_placed is

-- The rows that the statements for a list of events store are, up to their order, the rows of the
-- events: for each event one row, in the table of its variant, with each field of the event in the
-- column that the schema has for it and with the event's identifier and time; and for each pool
-- that an event of rewards names one row with its share.
pub placed-write_events : (ps : List Pending) → Permᴰ (placed (write_events ps)) (rows_of_all ps)
placed-write_events [] =
    rw (placed-parts [], nothing_placed first_inserts, nothing_placed last_inserts) Permᴰ.nil
placed-write_events (p ∷ ps) =
    let fs = hits first_inserts p p.content in
    let es = entries (entries_of p p.content) in
    let ls = hits last_inserts p p.content in
    let fs' = placed (run_inserts first_inserts ps) in
    let es' = entries (reward_entries ps) in
    let ls' = placed (run_inserts last_inserts ps) in
    let rewarded : Permᴰ (entries (reward_entries (p ∷ ps))) (es ++ es') =
      subst (Permᴰ (entries (reward_entries (p ∷ ps))))
        (placed_rows-append _ entries_columns (entries_of p p.content) (reward_entries ps))
        (Permᴰ.refl _) in
    let all : Permᴰ
        (placed (run_inserts first_inserts (p ∷ ps))
          ++ (entries (reward_entries (p ∷ ps)) ++ placed (run_inserts last_inserts (p ∷ ps))))
        ((fs ++ (es ++ ls)) ++ (fs' ++ (es' ++ ls'))) =
      shuffle fs fs' (es ++ ls) (es' ++ ls') (placed-run_inserts first_inserts p ps)
        (shuffle es es' ls ls' rewarded (placed-run_inserts last_inserts p ps)) in
    let before = sym (placed-parts (p ∷ ps)) in
    let later : Permᴰ (fs' ++ (es' ++ ls')) (rows_of_all ps) =
      subst (λ l. Permᴰ l (rows_of_all ps)) (placed-parts ps) (placed-write_events ps) in
    subst (λ l. Permᴰ l (rows_of_all (p ∷ ps))) before
      (Permᴰ.trans all (
        subst (λ h. Permᴰ (h ++ (fs' ++ (es' ++ ls'))) (rows_of_all (p ∷ ps)))
          (sym (hits-rows_of p p.content)) (Permᴰ.append_left (rows_of p p.content) later)))
