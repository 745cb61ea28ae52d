-- ===== src/Api/Depths.antt =====
-- crates/midgard-api/src/handlers/depths.rs: the history of the depths of a pool. The fields that
-- are computed with floats and the count of the members are left out, and a number stands for the
-- text that it is printed as.
pub mod Closing
use midgard_rs.Common.{
  ℕ, Bool, true, false, ◌&&◌, Option, none, some, List, [], ◌∷◌, Result, ok, err, if◌then◌else◌,
  map, ◌>>=◌,
}
use midgard_rs.Common.Int.{ℤ, pos, leb_ℤ, ltb_ℤ}
use midgard_rs.Common.Text.{Text, text_eq}
use midgard_rs.Core.Error.{Error}
use midgard_rs.Core.Time.{Second, to_nano}
use midgard_rs.Cursor.{BlockCursor}
use midgard_rs.Record.Writer.{Rows, PendingDepth}
use midgard_rs.Buckets.Generate.{BucketParams, Buckets, generate}
use midgard_rs.Api.Query.{Params, new, buckets, reject_unknown}

pub record Snapshot : Type 0 where
  pub asset_e8 : ℤ
  pub rune_e8 : ℤ
  pub synth_e8 : ℤ
  pub units : ℤ

-- The rows of a pool at or before a time.
abbrev pub rows_until : Text → ℤ → List PendingDepth → List PendingDepth
rows_until pool ts [] = []
rows_until pool ts (d ∷ ds) =
    let rest = rows_until pool ts ds in
    if text_eq d.pool pool && leb_ℤ d.block_timestamp ts then d ∷ rest else rest

-- `ORDER BY block_timestamp DESC LIMIT 1`. A block writes one row of a pool.
abbrev pub newer : PendingDepth → Option PendingDepth → PendingDepth
newer d none = d
newer d (some e) = if ltb_ℤ d.block_timestamp e.block_timestamp then e else d

abbrev pub newest : List PendingDepth → Option PendingDepth
newest [] = none
newest (d ∷ ds) = some (newer d (newest ds))

abbrev pub snapshot_of : Option PendingDepth → Snapshot
snapshot_of none = record { asset_e8 = pos 0; rune_e8 = pos 0; synth_e8 = pos 0; units = pos 0 }
snapshot_of (some d) = record {
  asset_e8 = d.depth.asset_e8;
  rune_e8 = d.depth.rune_e8;
  synth_e8 = d.depth.synth_e8;
  units = d.depth.units;
}

unfoldable pub snapshot_at : Rows → Text → Second → Snapshot
snapshot_at db pool at_second = snapshot_of (newest (rows_until pool (to_nano at_second) db.depths))

pub record DepthHistoryItem : Type 0 where
  pub start_time : Second
  pub end_time : Second
  pub asset_depth : ℤ
  pub rune_depth : ℤ
  pub liquidity_units : ℤ
  pub synth_units : ℤ
  pub synth_supply : ℤ
  pub units : ℤ

abbrev pub item : Second → Second → Snapshot → DepthHistoryItem
item from until s = record {
  start_time = from;
  end_time = until;
  asset_depth = s.asset_e8;
  rune_depth = s.rune_e8;
  liquidity_units = s.units;
  synth_units = pos 0;
  synth_supply = s.synth_e8;
  units = s.units;
}

-- The loop over the buckets: the boundaries and the snapshots at them, both from the next bucket on.
abbrev pub items : List Second → List Snapshot → List DepthHistoryItem
items [] ss = []
items (a ∷ []) ss = []
items (a ∷ b ∷ bs) [] = []
items (a ∷ b ∷ bs) (s ∷ []) = []
items (a ∷ b ∷ bs) (s ∷ t ∷ ts) = item a b t ∷ items (b ∷ bs) (t ∷ ts)

abbrev pub first_or_default : List Snapshot → Snapshot
first_or_default [] = snapshot_of none
first_or_default (s ∷ ss) = s

abbrev pub last_or_default : List Snapshot → Snapshot
last_or_default [] = snapshot_of none
last_or_default (s ∷ []) = s
last_or_default (s ∷ t ∷ ts) = last_or_default (t ∷ ts)

pub record DepthHistory : Type 0 where
  pub intervals : List DepthHistoryItem
  pub opening : Snapshot
  pub closing : Snapshot

-- The window of a history query: the four parameters, and no other, then the buckets.
unfoldable pub history_buckets : List (Text × Text) → BlockCursor → Result Error Buckets
history_buckets raw cursor =
    let (bucket_params, params) = buckets (new raw) in
    do b ← bucket_params; u ← reject_unknown params; generate b cursor

unfoldable pub depth_history :
    Rows → BlockCursor → Text → List (Text × Text) → Result Error DepthHistory
depth_history db cursor pool raw = do
  bs ← history_buckets raw cursor
  let snapshots = map (snapshot_at db pool) bs.timestamps
  ok (record {
    intervals = items bs.timestamps snapshots;
    opening = first_or_default snapshots;
    closing = last_or_default snapshots;
  })
