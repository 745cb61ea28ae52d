-- ===== src/Record/Writer/Ledger.antt =====
-- crates/midgard-record/src/writer.rs: no event is lost or stored twice between the buffer and the
-- database, whichever flushes commit.
use midgard_rs.Common.{
  Bool, true, false, ◌≡◌, refl, sym, ap, ◌∙◌, Bool-cases, inl, inr, Option, List, [], ◌∷◌, ◌++◌,
  map, Result, ok, err, leb, length, if◌then◌else◌,
}
use mathlib.Core.List.{append-nil, append_assoc}
use midgard_rs.Common.Int.{ℤ}
use midgard_rs.Common.Text.{Text}
use midgard_rs.EventId.{EventId}
use midgard_rs.Chain.Types.{Event, Block, successful_txs}
use midgard_rs.Record.Rows.{F64, Recorded}
use midgard_rs.Record.Attributes.{DecodeError}
use midgard_rs.Record.Decode.{Decoded, event, events, ignored, unknown, decode}
use midgard_rs.Record.Writer.{
  Pending, Rows, BlockWriter, pending, push_rows, push_decoded, push, push_all, begin_ids, tx_ids,
  end_ids, buffered, flush, add, no_rows, is_empty, insert_blocks, add_all,
}

-- The rows of one decoding.
abbrev pub rows_of : EventId → ℤ → Result DecodeError Decoded → List Pending
rows_of id timestamp (ok (event r)) = pending id timestamp r ∷ []
rows_of id timestamp (ok (events rs)) = map (pending id timestamp) rs
rows_of id timestamp (ok ignored) = []
rows_of id timestamp (ok unknown) = []
rows_of id timestamp (err x) = []

-- The rows of a list of events.
abbrev pub rows_of_all : (Text → Option F64) → List (EventId × Event) → ℤ → List Pending
rows_of_all parse_f64 [] timestamp = []
rows_of_all parse_f64 ((id, e) ∷ es) timestamp =
    rows_of id timestamp (decode parse_f64 e) ++ rows_of_all parse_f64 es timestamp

-- The rows of a block: its begin-block events, its transactions, its end-block events.
abbrev pub block_rows : (Text → Option F64) → Block → List Pending
block_rows parse_f64 b =
    rows_of_all parse_f64 (begin_ids b) b.timestamp
    ++ (rows_of_all parse_f64 (tx_ids b.height (successful_txs b)) b.timestamp
        ++ rows_of_all parse_f64 (end_ids b) b.timestamp)

push_rows-events :
    (id : EventId) (timestamp : ℤ) (rs : List Recorded) (w : BlockWriter)
    → (push_rows id timestamp rs w).waiting.events
      ≡ w.waiting.events ++ map (pending id timestamp) rs
push_rows-events id timestamp [] w = sym (append-nil w.waiting.events)
push_rows-events id timestamp (r ∷ rs) w =
    push_rows-events id timestamp rs _
    ∙ append_assoc w.waiting.events (pending id timestamp r ∷ []) (map (pending id timestamp) rs)

push_decoded-events :
    (kind : Text) (id : EventId) (timestamp : ℤ) (d : Result DecodeError Decoded) (w : BlockWriter)
    → (push_decoded kind id timestamp d w).waiting.events
      ≡ w.waiting.events ++ rows_of id timestamp d
push_decoded-events kind id timestamp (ok (event r)) w = refl
push_decoded-events kind id timestamp (ok (events rs)) w = push_rows-events id timestamp rs w
push_decoded-events kind id timestamp (ok ignored) w = sym (append-nil w.waiting.events)
push_decoded-events kind id timestamp (ok unknown) w = sym (append-nil w.waiting.events)
push_decoded-events kind id timestamp (err x) w = sym (append-nil w.waiting.events)

push_all-events :
    (parse_f64 : Text → Option F64) (es : List (EventId × Event)) (timestamp : ℤ) (w : BlockWriter)
    → (push_all parse_f64 es timestamp w).waiting.events
      ≡ w.waiting.events ++ rows_of_all parse_f64 es timestamp
unfolding push
push_all-events parse_f64 [] timestamp w = sym (append-nil w.waiting.events)
push_all-events parse_f64 ((id, e) ∷ es) timestamp w =
    let d = decode parse_f64 e in
    push_all-events parse_f64 es timestamp (push_decoded e.kind id timestamp d w)
    ∙ ap (λ xs. xs ++ rows_of_all parse_f64 es timestamp)
        (push_decoded-events e.kind id timestamp d w)
    ∙ append_assoc w.waiting.events (rows_of id timestamp d) (rows_of_all parse_f64 es timestamp)

-- All rows, committed or waiting.
abbrev pub all_events : Rows × BlockWriter × Bool → List Pending
all_events (db, w, went_well) = db.events ++ w.waiting.events

pub flush-all_events :
    (commits : Bool) (db : Rows) (w : BlockWriter)
    → all_events (flush commits db w) ≡ db.events ++ w.waiting.events
unfolding flush
flush-all_events commits db w = elim (Bool-cases (is_empty w.waiting.blocks)) [
  | inl e ↦ rw e refl
  | inr e ↦ rw e (written commits)
]
  where
    written :
        (c : Bool)
        → all_events (
            if c
            then (
              record {
                blocks = insert_blocks db.blocks w.waiting.blocks;
                events = db.events ++ w.waiting.events;
                depths = db.depths ++ w.waiting.depths;
              },
              record w { waiting = no_rows },
              true,
            )
            else (db, w, false))
          ≡ db.events ++ w.waiting.events
    written true = append-nil (db.events ++ w.waiting.events)
    written false = refl

buffered-events :
    (parse_f64 : Text → Option F64) (b : Block) (w : BlockWriter)
    → (buffered parse_f64 b w).waiting.events ≡ w.waiting.events ++ block_rows parse_f64 b
unfolding buffered
buffered-events parse_f64 b w =
    let begun = push_all parse_f64 (begin_ids b) b.timestamp w in
    let run = push_all parse_f64 (tx_ids b.height (successful_txs b)) b.timestamp begun in
    let first = rows_of_all parse_f64 (begin_ids b) b.timestamp in
    let second = rows_of_all parse_f64 (tx_ids b.height (successful_txs b)) b.timestamp in
    let third = rows_of_all parse_f64 (end_ids b) b.timestamp in
    rw
      (
        push_all-events parse_f64 (end_ids b) b.timestamp run,
        push_all-events parse_f64 (tx_ids b.height (successful_txs b)) b.timestamp begun,
        push_all-events parse_f64 (begin_ids b) b.timestamp w,
        append_assoc (w.waiting.events ++ first) second third,
        append_assoc w.waiting.events first (second ++ third),
      )
      refl

pub add-all_events :
    (parse_f64 : Text → Option F64) (commits : Bool) (db : Rows) (b : Block) (w : BlockWriter)
    → all_events (add parse_f64 commits db b w)
      ≡ (db.events ++ w.waiting.events) ++ block_rows parse_f64 b
unfolding add
add-all_events parse_f64 commits db b w =
    let full = buffered parse_f64 b w in
    let kept : db.events ++ full.waiting.events
        ≡ (db.events ++ w.waiting.events) ++ block_rows parse_f64 b =
      ap (λ xs. db.events ++ xs) (buffered-events parse_f64 b w)
      ∙ sym (append_assoc db.events w.waiting.events (block_rows parse_f64 b)) in
    elim (Bool-cases (leb full.batch_size (length full.waiting.blocks))) [
      | inl e ↦ rw e (flush-all_events commits db full ∙ kept)
      | inr e ↦ rw e kept
    ]

-- The rows of a list of blocks.
abbrev pub rows_of_blocks : (Text → Option F64) → List (Block × Bool) → List Pending
rows_of_blocks parse_f64 [] = []
rows_of_blocks parse_f64 ((b, commits) ∷ bs) = block_rows parse_f64 b ++ rows_of_blocks parse_f64 bs

-- After the adds of any list of blocks, whichever flushes commit, the event rows in the database
-- followed by those in the buffer are what they were before, followed by the rows of each block in
-- order: its begin-block events, those of its successful transactions, and its end-block events,
-- each decoded by itself.
pub add_all-events :
    (parse_f64 : Text → Option F64) (bs : List (Block × Bool)) (db : Rows) (w : BlockWriter)
    → (let (later, next) = add_all parse_f64 bs db w in later.events ++ next.waiting.events)
      ≡ (db.events ++ w.waiting.events) ++ rows_of_blocks parse_f64 bs
add_all-events parse_f64 [] db w = sym (append-nil (db.events ++ w.waiting.events))
add_all-events parse_f64 ((b, commits) ∷ bs) db w =
    let step = add parse_f64 commits db b w in
    add_all-events parse_f64 bs step.0 step.1
    ∙ ap (λ xs. xs ++ rows_of_blocks parse_f64 bs) (add-all_events parse_f64 commits db b w)
    ∙ append_assoc (db.events ++ w.waiting.events) (block_rows parse_f64 b)
        (rows_of_blocks parse_f64 bs)
