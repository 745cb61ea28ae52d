-- ===== src/Record/Rollback.antt =====
-- crates/midgard-db/src/block_log.rs: what is read of the log of blocks, and the rollback of a fork.
-- The tables are the rows of Record.Writer; whether the transaction commits is an argument.
pub mod Fork
use midgard_rs.Common.{Bool, true, false, ◌&&◌, Option, none, some, List, [], ◌∷◌, if◌then◌else◌, ℕ}
use midgard_rs.Common.Int.{ℤ, ltb_ℤ, eqb_ℤ}
use midgard_rs.Cursor.{BlockPos, BlockCursor, refresh}
use midgard_rs.Record.Writer.{Rows, BlockRow, Pending, PendingDepth}

abbrev pub position : BlockRow → BlockPos
position b = record { height = b.height; timestamp = b.timestamp }

-- `ORDER BY height DESC LIMIT 1`, heights being unique.
abbrev pub higher : BlockPos → Option BlockPos → BlockPos
higher p none = p
higher p (some q) = if ltb_ℤ p.height q.height then q else p

unfoldable pub last_block : List BlockRow → Option BlockPos
last_block [] = none
last_block (b ∷ bs) = some (higher (position b) (last_block bs))

-- `ORDER BY height ASC LIMIT 1`
abbrev pub lower : BlockPos → Option BlockPos → BlockPos
lower p none = p
lower p (some q) = if ltb_ℤ q.height p.height then q else p

unfoldable pub first_block : List BlockRow → Option BlockPos
first_block [] = none
first_block (b ∷ bs) = some (lower (position b) (first_block bs))

abbrev pub row_at : List BlockRow → ℤ → Option BlockRow
row_at [] height = none
row_at (b ∷ bs) height =
    let later = row_at bs height in if eqb_ℤ b.height height then some b else later

unfoldable pub hash_at : List BlockRow → ℤ → Option (List ℕ)
hash_at bs height = elim (row_at bs height) [ none ↦ none | some b ↦ some b.hash ]

-- `DELETE … WHERE block_timestamp >= $1`, on the events and on the depths.
abbrev pub events_before : ℤ → List Pending → List Pending
events_before timestamp [] = []
events_before timestamp (e ∷ es) =
    let rest = events_before timestamp es in
    if ltb_ℤ e.block_timestamp timestamp then e ∷ rest else rest

abbrev pub depths_before : ℤ → List PendingDepth → List PendingDepth
depths_before timestamp [] = []
depths_before timestamp (d ∷ ds) =
    let rest = depths_before timestamp ds in
    if ltb_ℤ d.block_timestamp timestamp then d ∷ rest else rest

-- `DELETE … WHERE height >= $1`
abbrev pub blocks_below : ℤ → List BlockRow → List BlockRow
blocks_below height [] = []
blocks_below height (b ∷ bs) =
    let rest = blocks_below height bs in if ltb_ℤ b.height height then b ∷ rest else rest

-- The database, and whether the result was `Ok`.
unfoldable pub delete_from_height : Bool → Rows → ℤ → Rows × Bool
delete_from_height commits db height = elim (row_at db.blocks height) [
  | none ↦ (db, true)
  | some b ↦
      if commits
      then (
        record {
          blocks = blocks_below height db.blocks;
          events = events_before b.timestamp db.events;
          depths = depths_before b.timestamp db.depths;
        },
        true,
      )
      else (db, false)
]

-- `BlockCursor::refresh`, on the database.
abbrev pub refreshed : Rows → BlockCursor → BlockCursor
refreshed db c = refresh (first_block db.blocks) (last_block db.blocks) c
