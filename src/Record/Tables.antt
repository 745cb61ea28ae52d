-- ===== src/Record/Tables.antt =====
-- crates/midgard-record/src/writer.rs: the INSERTs of a batch, one for each table that has rows. What
-- is bound to a column is a value; a statement is its table, its columns and its rows.
pub mod Shape
pub mod Fields
pub mod Placed
use midgard_rs.Common.{ℕ, map, Bool, Option, none, some, List, [], ◌∷◌, ◌++◌}
use midgard_rs.Common.Int.{ℤ, pos}
use midgard_rs.Common.Text.{Text, codes}
use midgard_rs.Record.Rows as Rows
use midgard_rs.Record.Rows.{F64, Recorded}
use midgard_rs.Record.Writer as Writer
use midgard_rs.Record.Writer.{Pending, PendingDepth, BlockRow}
use midgard_rs.Record.Values.{Value, text, int, bytes}
use midgard_rs.Record.Inserts.{Insert, columns, first_inserts, last_inserts}

pub record Statement : Type 0 where
  pub table : Text
  pub columns : List Text
  pub rows : List (List Value)

abbrev pub bind : Pending → List Value → List Value
bind p vs = vs ++ int p.event_id ∷ int p.block_timestamp ∷ []

-- The rows of an insert: `filter_map` on the variant.
abbrev pub matching : (Recorded → Option (List Value)) → List Pending → List (List Value)
matching values [] = []
matching values (p ∷ ps) =
    let rest = matching values ps in
    elim (values p.content) [ none ↦ rest | some vs ↦ bind p vs ∷ rest ]

-- A statement is executed only if it has rows.
abbrev pub statement : Text → List Text → List (List Value) → List Statement
statement table cols [] = []
statement table cols (r ∷ rs) = record { table = table; columns = cols; rows = r ∷ rs } ∷ []

unfoldable pub run_inserts : List Insert → List Pending → List Statement
run_inserts [] ps = []
run_inserts (i ∷ is) ps = statement i.table i.columns (matching i.values ps) ++ run_inserts is ps

-- The rows of rewards_event_entries: one for each pool of each event.
abbrev pub entry_rows : Pending → List (Text × ℤ) → List (List Value)
entry_rows p [] = []
entry_rows p ((pool, amount) ∷ rest) =
    bind p (text pool ∷ int amount ∷ int (pos 0) ∷ []) ∷ entry_rows p rest

abbrev pub entries_of : Pending → Recorded → List (List Value)
entries_of p (Rows.rewards r) = entry_rows p r.per_pool
entries_of p r = []

abbrev pub reward_entries : List Pending → List (List Value)
reward_entries [] = []
reward_entries (p ∷ ps) = entries_of p p.content ++ reward_entries ps

unfoldable pub write_events : List Pending → List Statement
unfolding run_inserts
write_events ps =
    run_inserts first_inserts ps
    ++ (statement (codes "rewards_event_entries")
          (columns (codes "pool" ∷ codes "rune_e8" ∷ codes "saver_e8" ∷ [])) (reward_entries ps)
        ++ run_inserts last_inserts ps)

abbrev depth_row : PendingDepth → List Value
depth_row d =
    text d.pool
    ∷ int d.depth.asset_e8
    ∷ int d.depth.rune_e8
    ∷ int d.depth.synth_e8
    ∷ int d.depth.units
    ∷ int d.block_timestamp
    ∷ []

unfoldable pub write_depths : List PendingDepth → List Statement
write_depths ds =
    statement (codes "block_pool_depths")
      (codes "pool"
        ∷ codes "asset_e8"
        ∷ codes "rune_e8"
        ∷ codes "synth_e8"
        ∷ codes "units"
        ∷ codes "block_timestamp"
        ∷ [])
      (map depth_row ds)

abbrev block_row : BlockRow → List Value
block_row b = int b.height ∷ int b.timestamp ∷ bytes b.hash ∷ []

unfoldable pub write_blocks : List BlockRow → List Statement
write_blocks bs =
    statement (codes "block_log") (codes "height" ∷ codes "timestamp" ∷ codes "hash" ∷ [])
      (map block_row bs)

-- The statements of a flush, in their order.
unfoldable pub write_batch : Writer.Rows → List Statement
unfolding write_depths write_events write_blocks
write_batch w = write_depths w.depths ++ (write_events w.events ++ write_blocks w.blocks)
