-- ===== src/Daemon/Bootstrap.antt =====
-- crates/midgard/src/bootstrap.rs: the seed of the depths from the pools of a node. What the node
-- answers, and whether the transaction commits, are arguments.
pub mod Seeds
use midgard_rs.Common.{ℕ, length, Bool, Option, none, some, List, [], ◌∷◌, ◌++◌, if◌then◌else◌}
use midgard_rs.Common.Int.{ℤ}
use midgard_rs.Common.Text.{Text, is_nil, to_ascii_lowercase}
use midgard_rs.Chain.ThorNode as ThorNode
use midgard_rs.Chain.ThorNode.{asset_e8, rune_e8, synth_e8, units}
use midgard_rs.EventId.{first_id_at_height}
use midgard_rs.Record.Rows as Recorded
use midgard_rs.Record.Writer.{Rows, Pending, PendingDepth}

abbrev pub depth_row : ℤ → ThorNode.Pool → PendingDepth
depth_row timestamp p = record {
  pool = p.asset;
  depth = record {
    asset_e8 = asset_e8 p;
    rune_e8 = rune_e8 p;
    synth_e8 = synth_e8 p;
    units = units p;
  };
  block_timestamp = timestamp;
}

abbrev pub status_row : ℤ → ℤ → ThorNode.Pool → Pending
status_row event_id timestamp p = record {
  event_id = event_id;
  block_timestamp = timestamp;
  content = Recorded.pool (record { asset = p.asset; status = to_ascii_lowercase p.status });
}

-- The loop over the pools: the two rows of each that has a name.
abbrev pub seed_rows : ℤ → ℤ → List ThorNode.Pool → List PendingDepth × List Pending
seed_rows event_id timestamp [] = ([], [])
seed_rows event_id timestamp (p ∷ ps) =
    let (depths, events) = seed_rows event_id timestamp ps in
    if is_nil p.asset
    then (depths, events)
    else (depth_row timestamp p ∷ depths, status_row event_id timestamp p ∷ events)

-- The database, and the number of the pools seeded where it went well.
unfoldable pub seed_pool_depths :
    Option (List ThorNode.Pool) → Bool → ℤ → ℤ → Rows → Rows × Option ℕ
seed_pool_depths none commits height timestamp db = (db, none)
seed_pool_depths (some []) commits height timestamp db = (db, none)
seed_pool_depths (some (p ∷ ps)) commits height timestamp db =
    let (depths, events) = seed_rows (first_id_at_height height) timestamp (p ∷ ps) in
    if commits
    then (
      record db { depths = db.depths ++ depths; events = db.events ++ events },
      some (length depths),
    )
    else (db, none)
