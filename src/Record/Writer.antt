-- ===== src/Record/Writer.antt =====
-- crates/midgard-record/src/writer.rs: the buffer of decoded blocks, and its flush. The database is
-- the rows that are committed; whether a transaction commits is an input. Logging is left out.
pub mod Ledger
pub mod Known
use midgard_rs.Common.{
  ◌-◌, ◌*◌, ◌&&◌, ℕ, ◌+◌, Bool, true, false, ◌||◌, ◌==◌, Option, none, some, List, [], ◌∷◌, ◌++◌,
  map, Result, ok, err, length, leb, if◌then◌else◌,
}
use midgard_rs.Common.Int.{ℤ, pos, eqb_ℤ}
use midgard_rs.Common.Text.{Text, one_of}
use midgard_rs.EventId.{EventId, at_begin_block, at_tx_event, at_end_block, to_i64}
use midgard_rs.Chain.Types.{
  Event, TxResult, Block, begin_block_events, end_block_events, successful_txs, enumerate_from,
}
use midgard_rs.Record.Rows.{F64, Recorded}
use midgard_rs.Record.Attributes.{DecodeError}
use midgard_rs.Record.Decode as Decode
use midgard_rs.Record.Decode.{Decoded, decode}
use midgard_rs.Record.Depth as Depth
use midgard_rs.Record.Depth.{DepthTracker, apply, take_changed}

pub record Pending : Type 0 where
  pub event_id : ℤ
  pub block_timestamp : ℤ
  pub content : Recorded

pub record PendingDepth : Type 0 where
  pub pool : Text
  pub depth : Depth.Depth
  pub block_timestamp : ℤ

-- A row of block_log: height, timestamp and hash.
pub record BlockRow : Type 0 where
  pub height : ℤ
  pub timestamp : ℤ
  pub hash : List ℕ

-- Rows that wait, or that are committed.
pub record Rows : Type 0 where
  pub blocks : List BlockRow
  pub events : List Pending
  pub depths : List PendingDepth

pub record BlockWriter : Type 0 where
  pub batch_size : ℕ
  pub waiting : Rows
  pub tracker : DepthTracker
  pub unknown_seen : List Text

abbrev pub no_rows : Rows
no_rows = record { blocks = []; events = []; depths = [] }

-- `BlockWriter::new`
abbrev pub new : ℕ → BlockWriter
new batch_size = record {
  batch_size = if leb 1 batch_size then batch_size else 1;
  waiting = no_rows;
  tracker = Depth.new;
  unknown_seen = [];
}

-- `restore`, from the rows that the query returns.
unfoldable pub restore : List (Text × Depth.Depth) → BlockWriter → BlockWriter
restore rows w = record w { tracker = Depth.load rows w.tracker }

abbrev pub pending : EventId → ℤ → Recorded → Pending
pending id timestamp r = record { event_id = to_i64 id; block_timestamp = timestamp; content = r }

-- The arm of `push` for one row.
abbrev pub push_row : EventId → ℤ → Recorded → BlockWriter → BlockWriter
push_row id timestamp r w = record w {
  tracker = apply r w.tracker;
  waiting = record w.waiting { events = w.waiting.events ++ pending id timestamp r ∷ [] };
}

abbrev pub push_rows : EventId → ℤ → List Recorded → BlockWriter → BlockWriter
push_rows id timestamp [] w = w
push_rows id timestamp (r ∷ rs) w = push_rows id timestamp rs (push_row id timestamp r w)

abbrev pub push_decoded :
    Text → EventId → ℤ → Result DecodeError Decoded → BlockWriter → BlockWriter
push_decoded kind id timestamp (err x) w = w
push_decoded kind id timestamp (ok (Decode.event r)) w = push_row id timestamp r w
push_decoded kind id timestamp (ok (Decode.events rs)) w = push_rows id timestamp rs w
push_decoded kind id timestamp (ok Decode.ignored) w = w
push_decoded kind id timestamp (ok Decode.unknown) w = record w {
  unknown_seen = if one_of kind w.unknown_seen then w.unknown_seen else kind ∷ w.unknown_seen;
}

module _ (parse_f64 : Text → Option F64) where
  unfoldable pub push : Event → EventId → ℤ → BlockWriter → BlockWriter
  push e id timestamp w = push_decoded e.kind id timestamp (decode parse_f64 e) w

  -- A loop of pushes.
  abbrev pub push_all : List (EventId × Event) → ℤ → BlockWriter → BlockWriter
  push_all [] timestamp w = w
  push_all ((id, e) ∷ es) timestamp w = push_all es timestamp (push e id timestamp w)

abbrev pub begin_ids : Block → List (EventId × Event)
begin_ids b =
    map (λ (n, e). (record (at_begin_block b.height) { event_index = pos (n + 1) }, e))
      (begin_block_events b)

abbrev pub tx_ids : ℤ → List (ℕ × TxResult) → List (EventId × Event)
tx_ids height [] = []
tx_ids height ((t, tx) ∷ txs) =
    map (λ (n, e). (at_tx_event height (pos (t + 1)) (pos (n + 1)), e)) (enumerate_from 0 tx.events)
    ++ tx_ids height txs

abbrev pub end_ids : Block → List (EventId × Event)
end_ids b = map (λ (n, e). (at_end_block b.height (pos (n + 1)), e)) (end_block_events b)

-- The rows of `take_changed`, with the block's time.
abbrev pub push_changed : ℤ → BlockWriter → BlockWriter
push_changed timestamp w =
    let (changed, left) = take_changed w.tracker in
    record w {
      tracker = left;
      waiting = record w.waiting {
        depths =
            w.waiting.depths
            ++ map (λ (p, d). record { pool = p; depth = d; block_timestamp = timestamp }) changed;
      };
    }

-- `INSERT … ON CONFLICT (height) DO NOTHING`
abbrev pub has_height : List BlockRow → ℤ → Bool
has_height [] h = false
has_height (b ∷ bs) h = eqb_ℤ b.height h || has_height bs h

abbrev pub insert_blocks : List BlockRow → List BlockRow → List BlockRow
insert_blocks log [] = log
insert_blocks log (b ∷ bs) =
    insert_blocks (if has_height log b.height then log else log ++ b ∷ []) bs

-- The database and the writer after a flush, whose transaction commits or not; true tells that it
-- returned `Ok`.
abbrev pub is_empty : List BlockRow → Bool
is_empty [] = true
is_empty (b ∷ bs) = false

unfoldable pub flush : Bool → Rows → BlockWriter → Rows × BlockWriter × Bool
flush commits db w =
    if is_empty w.waiting.blocks
    then (db, w, true)
    else if commits
    then (
      record {
        blocks = insert_blocks db.blocks w.waiting.blocks;
        events = db.events ++ w.waiting.events;
        depths = db.depths ++ w.waiting.depths;
      },
      record w { waiting = no_rows },
      true,
    )
    else (db, w, false)

-- `u8::from_str_radix(…, 16)` of two characters, which takes a plus sign in front of a digit.
abbrev pub hex_digit : ℕ → Option ℕ
hex_digit c =
    if leb b'0' c && leb c b'9'
    then some (c - b'0')
    else if leb b'A' c && leb c b'F'
    then some (c - b'A' + 10)
    else if leb b'a' c && leb c b'f'
    then some (c - b'a' + 10)
    else none

abbrev pub hex_byte : ℕ → ℕ → Option ℕ
hex_byte c d = if c == b'+' then hex_digit d else elim (hex_digit c) [
  | none ↦ none
  | some h ↦ elim (hex_digit d) [ none ↦ none | some l ↦ some (h * 16 + l) ]
]

-- On ASCII text, as the node reports hashes. An odd character at the end is dropped, and so is a pair
-- that is no byte.
unfoldable pub hex_to_bytes : Text → List ℕ
hex_to_bytes [] = []
hex_to_bytes (c ∷ []) = []
hex_to_bytes (c ∷ d ∷ s) =
    let rest = hex_to_bytes s in elim (hex_byte c d) [ none ↦ rest | some b ↦ b ∷ rest ]

module _ (parse_f64 : Text → Option F64) where
  -- The writer of `add` before its flush.
  unfoldable pub buffered : Block → BlockWriter → BlockWriter
  buffered b w =
      let begun = push_all parse_f64 (begin_ids b) b.timestamp w in
      let run = push_all parse_f64 (tx_ids b.height (successful_txs b)) b.timestamp begun in
      let ended = push_all parse_f64 (end_ids b) b.timestamp run in
      let changed = push_changed b.timestamp ended in
      record changed {
        waiting = record changed.waiting {
          blocks =
              changed.waiting.blocks
              ++ record { height = b.height; timestamp = b.timestamp; hash = hex_to_bytes b.hash }
                ∷ [];
        };
      }

  unfoldable pub add : Bool → Rows → Block → BlockWriter → Rows × BlockWriter × Bool
  unfolding buffered
  add commits db b w =
      let full = buffered b w in
      if leb full.batch_size (length full.waiting.blocks)
      then flush commits db full
      else (db, full, true)

  -- The adds of a list of blocks, each with the outcome of the flush that it may come to.
  abbrev pub add_all : List (Block × Bool) → Rows → BlockWriter → Rows × BlockWriter
  add_all [] db w = (db, w)
  add_all ((b, commits) ∷ bs) db w =
      let (later, next, went_well) = add commits db b w in add_all bs later next
