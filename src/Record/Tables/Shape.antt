-- ===== src/Record/Tables/Shape.antt =====
-- crates/midgard-record/src/writer.rs: the statements fit their tables.
use midgard_rs.Common.{
  ℕ, ◌+◌, ◌==◌, ◌≡◌, refl, Bool, true, ◌&&◌, Option, none, some, List, [], ◌∷◌, ◌++◌, map, length,
  length-append, arith, ==_iff, and_left, and_right,
}
use midgard_rs.Common.Int.{ℤ}
use midgard_rs.Common.Text.{Text, codes, text_eq, one_of}
use midgard_rs.Db.Tables.{rollback_tables}
use midgard_rs.Record.Rows as Rows
use midgard_rs.Record.Rows.{Recorded}
use midgard_rs.Record.Writer as Writer
use midgard_rs.Record.Writer.{Pending, PendingDepth, BlockRow}
use midgard_rs.Record.Values.{Value, int}
use midgard_rs.Record.Inserts.{Insert, first_inserts, last_inserts}
use midgard_rs.Record.Tables.{
  Statement, bind, matching, statement, run_inserts, entry_rows, entries_of, reward_entries,
  write_events, write_depths, write_blocks, write_batch, depth_row, block_row,
}

-- Every row has as many values as there are columns.
abbrev pub AllWide : ℕ → List (List Value) → Type 0
AllWide n [] = Unit
AllWide n (r ∷ rs) = (length r ≡ n) × AllWide n rs

-- Statements on tables that a rollback empties, or on the log of blocks, with a value for each column.
abbrev pub AllShaped : List Statement → Type 0
AllShaped [] = Unit
AllShaped (s ∷ ss) =
    (one_of s.table (codes "block_log" ∷ rollback_tables) ≡ true)
    × AllWide (length s.columns) s.rows
    × AllShaped ss

append-AllShaped : (ss ts : List Statement) → AllShaped ss → AllShaped ts → AllShaped (ss ++ ts)
append-AllShaped [] ts h k = k
append-AllShaped (s ∷ ss) ts (a, b, h) k = (a, b, append-AllShaped ss ts h k)

append-AllWide :
    (n : ℕ) (rs qs : List (List Value)) → AllWide n rs → AllWide n qs → AllWide n (rs ++ qs)
append-AllWide n [] qs h k = k
append-AllWide n (r ∷ rs) qs (e, h) k = (e, append-AllWide n rs qs h k)

statement-AllShaped :
    (table : Text) (cols : List Text) (rs : List (List Value))
    → one_of table (codes "block_log" ∷ rollback_tables) ≡ true
    → AllWide (length cols) rs
    → AllShaped (statement table cols rs)
statement-AllShaped table cols [] h k = tt
statement-AllShaped table cols (r ∷ rs) h k = (h, k, tt)

-- What an insert binds has the width of its columns, whichever variant it is for.
abbrev fits : Option (List Value) → ℕ → Bool
fits none n = true
fits (some vs) n = length vs + 2 == n

abbrev all_fit : List Insert → Recorded → Bool
all_fit [] r = true
all_fit (i ∷ is) r = fits (i.values r) (length i.columns) && all_fit is r

first_inserts_fit : (r : Recorded) → all_fit first_inserts r ≡ true
first_inserts_fit (Rows.swap v) = refl
first_inserts_fit r = refl

last_inserts_fit : (r : Recorded) → all_fit last_inserts r ≡ true
last_inserts_fit (Rows.swap v) = refl
last_inserts_fit r = refl

abbrev all_listed : List Insert → Bool
all_listed [] = true
all_listed (i ∷ is) = one_of i.table (codes "block_log" ∷ rollback_tables) && all_listed is

listed : (all_listed first_inserts ≡ true) × (all_listed last_inserts ≡ true)
unfolding one_of text_eq rollback_tables
listed = (refl, refl)

bind-fits :
    (p : Pending) (n : ℕ) (vs : List Value) → fits (some vs) n ≡ true → length (bind p vs) ≡ n
bind-fits p n vs h = omega (
  arith,
  length-append vs (int p.event_id ∷ int p.block_timestamp ∷ []),
  (==_iff (length vs + 2) n).0 h,
)

cons-AllWide :
    (p : Pending) (n : ℕ) (o : Option (List Value)) (rest : List (List Value))
    → fits o n ≡ true
    → AllWide n rest
    → AllWide n (elim o [ none ↦ rest | some vs ↦ bind p vs ∷ rest ])
cons-AllWide p n none rest h k = k
cons-AllWide p n (some vs) rest h k = (bind-fits p n vs h, k)

matching-AllWide :
    (values : Recorded → Option (List Value)) (n : ℕ)
    → ((r : Recorded) → fits (values r) n ≡ true)
    → (ps : List Pending) → AllWide n (matching values ps)
matching-AllWide values n h [] = tt
matching-AllWide values n h (p ∷ ps) =
    cons-AllWide p n (values p.content) (matching values ps) (h p.content)
      (matching-AllWide values n h ps)

run_inserts-AllShaped :
    (is : List Insert)
    → all_listed is ≡ true
    → ((r : Recorded) → all_fit is r ≡ true)
    → (ps : List Pending) → AllShaped (run_inserts is ps)
unfolding run_inserts
run_inserts-AllShaped [] h k ps = tt
run_inserts-AllShaped (i ∷ is) h k ps =
    append-AllShaped (statement i.table i.columns (matching i.values ps)) (run_inserts is ps)
      (statement-AllShaped i.table i.columns (matching i.values ps) (and_left _ _ h)
        (matching-AllWide i.values (length i.columns) (λ r. and_left _ _ (k r)) ps))
      (run_inserts-AllShaped is (and_right _ _ h) (λ r. and_right _ _ (k r)) ps)

entry_rows-AllWide : (p : Pending) (ps : List (Text × ℤ)) → AllWide 5 (entry_rows p ps)
entry_rows-AllWide p [] = tt
entry_rows-AllWide p ((pool, n) ∷ ps) = (refl, entry_rows-AllWide p ps)

entries_of-AllWide : (p : Pending) (r : Recorded) → AllWide 5 (entries_of p r)
entries_of-AllWide p (Rows.rewards v) = entry_rows-AllWide p v.per_pool
entries_of-AllWide p r = tt

reward_entries-AllWide : (ps : List Pending) → AllWide 5 (reward_entries ps)
reward_entries-AllWide [] = tt
reward_entries-AllWide (p ∷ ps) =
    append-AllWide 5 (entries_of p p.content) (reward_entries ps) (entries_of-AllWide p p.content)
      (reward_entries-AllWide ps)

depths-AllWide : (ds : List PendingDepth) → AllWide 6 (map depth_row ds)
depths-AllWide [] = tt
depths-AllWide (d ∷ ds) = (refl, depths-AllWide ds)

blocks-AllWide : (bs : List BlockRow) → AllWide 3 (map block_row bs)
blocks-AllWide [] = tt
blocks-AllWide (b ∷ bs) = (refl, blocks-AllWide bs)

-- Each statement of a batch inserts into the log of blocks or into a table that a rollback empties,
-- and each of its rows has one value for each of its columns.
pub write_batch-AllShaped : (w : Writer.Rows) → AllShaped (write_batch w)
unfolding write_batch one_of text_eq rollback_tables
write_batch-AllShaped w =
    append-AllShaped (write_depths w.depths) (write_events w.events ++ write_blocks w.blocks)
      (statement-AllShaped _ _ (map depth_row w.depths) refl (depths-AllWide w.depths))
      (append-AllShaped (write_events w.events) (write_blocks w.blocks)
        (append-AllShaped (run_inserts first_inserts w.events) _
          (run_inserts-AllShaped first_inserts listed.0 first_inserts_fit w.events)
          (append-AllShaped (statement _ _ (reward_entries w.events))
            (run_inserts last_inserts w.events)
            (statement-AllShaped _ _ (reward_entries w.events) refl
              (reward_entries-AllWide w.events))
            (run_inserts-AllShaped last_inserts listed.1 last_inserts_fit w.events)))
        (statement-AllShaped _ _ (map block_row w.blocks) refl (blocks-AllWide w.blocks)))
