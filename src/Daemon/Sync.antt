-- ===== src/Daemon/Sync.antt =====
-- crates/midgard/src/sync.rs: the loop that follows the chain. The database, which the source
-- reaches through the writer, is part of the state; what the node replies, whether a flush commits
-- and whether the loop is cancelled is an argument, a function of the number of the round.
-- Logging and waiting are left out.
pub mod Follow
pub mod CatchUp
pub mod Served
use midgard_rs.Common.{
  ℕ, zero, suc, ◌+◌, ◌^◌, Bool, true, false, not, Option, none, some, List, [], ◌∷◌, Result, ok,
  err, if◌then◌else◌,
}
use midgard_rs.Common.Int.{ℤ, pos, ltb_ℤ, max_ℤ, rem_euclid}
use midgard_rs.Common.Word.{wrap, add_i64, sub_i64}
use midgard_rs.Common.Text.{Text}
use midgard_rs.Chain.Types.{Block}
use midgard_rs.Chain.Client as Client
use midgard_rs.Chain.Client.{
  ChainError, Node, Formats, BlockIterator, Status, fetch_block, iterator, next_block,
}
use midgard_rs.Chain.Rpc.{Reply}
use midgard_rs.Cursor as Cursor
use midgard_rs.Cursor.{BlockCursor, observe, next_height}
use midgard_rs.Record.Rows.{F64}
use midgard_rs.Record.Writer as Writer
use midgard_rs.Record.Writer.{BlockWriter, add, flush, restore}
use midgard_rs.Record.Depth.{Depth}

pub record Syncer : Type 0 where
  pub client : Client.Client
  pub writer : BlockWriter
  pub cursor : BlockCursor
  pub initial_block_height : ℤ
  pub chain_height : ℤ
  pub db : Writer.Rows

-- `Syncer::new`, from the rows that `restore` reads.
abbrev pub new : Client.Client → BlockCursor → ℤ → ℕ → List (Text × Depth) → Writer.Rows → Syncer
new client cursor initial_block_height commit_batch_size depths db = record {
  client = client;
  writer = restore depths (Writer.new commit_batch_size);
  cursor = cursor;
  initial_block_height = initial_block_height;
  chain_height = pos 0;
  db = db;
}

-- One round of a loop: the replies of the node, whether the flush in `add` and the one after it
-- commit, and whether the loop is cancelled by then.
pub record Moment (Json : Type 0) : Type 0 where
  pub node : Node Json
  pub add_commits : Bool
  pub flush_commits : Bool
  pub is_cancelled : Bool

abbrev pub position : Block → Cursor.BlockPos
position b = record { height = b.height; timestamp = b.timestamp }

unfoldable pub first_height : Syncer → ℤ
first_height s = max_ℤ s.initial_block_height (pos 1)

abbrev pub batch_threshold : ℤ
batch_threshold = pos 10

module _ {Json : Type 0} (formats : Formats Json) (parse_f64 : Text → Option F64) where
  abbrev pub observed : Block → Syncer → Syncer
  observed b s = record s { cursor = observe (position b) s.cursor }

  -- `add`, and whether it was `Ok`.
  unfoldable pub add_block : Bool → Block → Syncer → Syncer × Bool
  add_block commits b s =
      let (db, w, went_well) = add parse_f64 commits s.db b s.writer in
      (record s { db = db; writer = w }, went_well)

  unfoldable pub flush_blocks : Bool → Syncer → Syncer × Bool
  flush_blocks commits s =
      let (db, w, went_well) = flush commits s.db s.writer in
      (record s { db = db; writer = w }, went_well)

  -- What follows the fetch of a block in `follow`: true where the loop goes on.
  unfoldable pub commit_block : Moment Json → Block → Syncer → Syncer × Bool
  commit_block m b s =
      let (added, add_ok) = add_block m.add_commits b s in
      let (flushed, flush_ok) = flush_blocks m.flush_commits added in
      if not add_ok
      then (added, false)
      else if not flush_ok
      then (flushed, false)
      else (observed b flushed, true)

  -- `follow`, for a number of heights from one on.
  abbrev pub follow : ℕ → ℤ → (ℕ → Moment Json) → ℕ → Syncer → Syncer × Result ChainError Unit
  follow zero height world i s = (s, ok tt)
  follow (suc n) height world i s = elim (fetch_block formats s.client (world i).node height) [
    | err e ↦ (s, err e)
    | ok b ↦
        let (after, goes_on) = commit_block (world i) b s in
        let rest = follow n (add_i64 height (pos 1)) world (i + 1) after in
        if goes_on then rest else (after, ok tt)
  ]

  -- The loop of `catch_up`, on fuel: none where it runs out.
  abbrev pub catch_up_loop :
      ℕ → BlockIterator → (ℕ → Moment Json) → ℕ → Syncer → Option (Syncer × Result ChainError Unit)
  catch_up_loop zero it world i s = none
  catch_up_loop (suc fuel) it world i s = elim (next_block formats s.client (world i).node it) [
    | err e ↦ some (s, err e)
    | ok (none, later) ↦ some (s, ok tt)
    | ok (some b, later) ↦
        let (added, add_ok) = add_block (world i).add_commits b s in
        let rest = catch_up_loop fuel later world (i + 1) (observed b added) in
        if (world i).is_cancelled
        then some (s, ok tt)
        else if not add_ok
        then some (added, ok tt)
        else rest
  ]

  -- The number of heights of `from..=tip`.
  unfoldable pub span : ℤ → ℤ → ℕ
  span from tip =
      if ltb_ℤ tip from then 0 else rem_euclid (add_i64 (sub_i64 tip from) (pos 1)) (2 ^ 64)

  unfoldable pub catch_up :
      ℤ → ℤ → (ℕ → Moment Json) → Syncer → Option (Syncer × Result ChainError Unit)
  catch_up from tip world s = catch_up_loop (span from tip + 1) (iterator from tip) world 0 s

  abbrev wrote : Result ChainError Unit → Result ChainError Bool
  wrote (ok u) = ok true
  wrote (err e) = err e

  -- `step`, for a tip.
  unfoldable pub step_to : ℤ → (ℕ → Moment Json) → Syncer → Option (Syncer × Result ChainError Bool)
  step_to tip world s =
      let next = max_ℤ (next_height s.cursor) (first_height s) in
      if ltb_ℤ tip next
      then some (s, ok false)
      else if ltb_ℤ batch_threshold (add_i64 (sub_i64 tip next) (pos 1))
      then elim (catch_up next tip world s) [ none ↦ none | some (t, r) ↦ some (t, wrote r) ]
      else (let (t, r) = follow (span next tip) next world 0 s in some (t, wrote r))

  -- `step`, from the replies to its requests for the status. None is a panic, or a loop that does
  -- not end.
  unfoldable pub step :
      (ℕ → Reply Json) → (ℕ → Moment Json) → Syncer → Option (Syncer × Result ChainError Bool)
  step replies world s = elim (Client.status formats s.client replies) [
    | none ↦ none
    | some (err e) ↦ some (s, err e)
    | some (ok status) ↦
        let tip = wrap (pos status.latest_block_height) in
        step_to tip world (record s { chain_height = tip })
  ]

  -- The steps of `run`, each with its replies, and the flush at the end, whether it commits and
  -- whether it was `Ok`.
  unfoldable pub run :
      List ((ℕ → Reply Json) × (ℕ → Moment Json)) → Bool → Syncer → Option (Syncer × Bool)
  run [] commits s = some (flush_blocks commits s)
  run ((replies, world) ∷ rounds) commits s = elim (step replies world s) [
    | none ↦ none
    | some (t, r) ↦ run rounds commits t
  ]
