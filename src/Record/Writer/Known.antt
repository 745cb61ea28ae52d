-- ===== src/Record/Writer/Known.antt =====
-- crates/midgard-record/src/writer.rs: the blocks that the log or the buffer has, whichever flushes
-- commit.
use midgard_rs.Common.{
  Bool, true, false, ◌||◌, ◌≡◌, refl, sym, ap, ◌∙◌, Bool-cases, inl, inr, Option, List, [], ◌∷◌,
  ◌++◌, Result, ok, err, leb, length, if◌then◌else◌, arith,
}
use midgard_rs.Common.Int.{ℤ, eqb_ℤ}
use midgard_rs.Common.Text.{Text}
use midgard_rs.Common.Int.Order.{eqb-eq}
use midgard_rs.EventId.{EventId}
use midgard_rs.Chain.Types.{Event, Block, successful_txs}
use midgard_rs.Record.Rows.{F64, Recorded}
use midgard_rs.Record.Attributes.{DecodeError}
use midgard_rs.Record.Decode.{Decoded, event, events, ignored, unknown, decode}
use midgard_rs.Record.Writer.{
  Rows, BlockRow, BlockWriter, push_rows, push_decoded, push, push_all, begin_ids, tx_ids, end_ids,
  hex_to_bytes, buffered, flush, add, no_rows, is_empty, has_height, insert_blocks,
}

or_assoc : (a b c : Bool) → (a || b) || c ≡ a || (b || c)
or_assoc a b c = ground arith

has_height-append :
    (xs ys : List BlockRow) (h : ℤ) → has_height (xs ++ ys) h ≡ has_height xs h || has_height ys h
has_height-append [] ys h = refl
has_height-append (x ∷ xs) ys h =
    rw (has_height-append xs ys h)
      (sym (or_assoc (eqb_ℤ x.height h) (has_height xs h) (has_height ys h)))

or-false : (a : Bool) → a || false ≡ a
or-false true = refl
or-false false = refl

or_self : (a b : Bool) → (b ≡ true → a ≡ true) → a ≡ a || b
or_self true b h = refl
or_self false true h = h refl
or_self false false h = refl

-- One row more, unless its height is there.
insert_one :
    (log : List BlockRow) (b : BlockRow) (h : ℤ)
    → has_height (if has_height log b.height then log else log ++ b ∷ []) h
      ≡ has_height log h || eqb_ℤ b.height h
insert_one log b h = elim (Bool-cases (has_height log b.height)) [
  | inl e ↦ rw e (
      or_self (has_height log h) (eqb_ℤ b.height h)
        (λ same. ap (has_height log) (sym (eqb-eq b.height h same)) ∙ e))
  | inr e ↦ rw (e, has_height-append log (b ∷ []) h, or-false (eqb_ℤ b.height h)) refl
]

pub has_height-insert_blocks :
    (log bs : List BlockRow) (h : ℤ)
    → has_height (insert_blocks log bs) h ≡ has_height log h || has_height bs h
has_height-insert_blocks log [] h = sym (or-false (has_height log h))
has_height-insert_blocks log (b ∷ bs) h =
    has_height-insert_blocks (if has_height log b.height then log else log ++ b ∷ []) bs h
    ∙ ap (λ x. x || has_height bs h) (insert_one log b h)
    ∙ or_assoc (has_height log h) (eqb_ℤ b.height h) (has_height bs h)

push_rows-blocks :
    (id : EventId) (timestamp : ℤ) (rs : List Recorded) (w : BlockWriter)
    → (push_rows id timestamp rs w).waiting.blocks ≡ w.waiting.blocks
push_rows-blocks id timestamp [] w = refl
push_rows-blocks id timestamp (r ∷ rs) w = push_rows-blocks id timestamp rs _

push_decoded-blocks :
    (kind : Text) (id : EventId) (timestamp : ℤ) (d : Result DecodeError Decoded) (w : BlockWriter)
    → (push_decoded kind id timestamp d w).waiting.blocks ≡ w.waiting.blocks
push_decoded-blocks kind id timestamp (ok (events rs)) w = push_rows-blocks id timestamp rs w
push_decoded-blocks kind id timestamp (ok (event r)) w = refl
push_decoded-blocks kind id timestamp (ok ignored) w = refl
push_decoded-blocks kind id timestamp (ok unknown) w = refl
push_decoded-blocks kind id timestamp (err x) w = refl

module _ (parse_f64 : Text → Option F64) where
  push_all-blocks :
      (es : List (EventId × Event)) (timestamp : ℤ) (w : BlockWriter)
      → (push_all parse_f64 es timestamp w).waiting.blocks ≡ w.waiting.blocks
  unfolding push
  push_all-blocks [] timestamp w = refl
  push_all-blocks ((id, e) ∷ es) timestamp w =
      push_all-blocks es timestamp (push parse_f64 e id timestamp w)
      ∙ push_decoded-blocks e.kind id timestamp (decode parse_f64 e) w

  abbrev pub block_row_of : Block → BlockRow
  block_row_of b = record { height = b.height; timestamp = b.timestamp; hash = hex_to_bytes b.hash }

  pub buffered-blocks :
      (b : Block) (w : BlockWriter)
      → (buffered parse_f64 b w).waiting.blocks ≡ w.waiting.blocks ++ block_row_of b ∷ []
  unfolding buffered
  buffered-blocks b w =
      ap (λ bs. bs ++ block_row_of b ∷ [])
        (push_all-blocks (end_ids b) b.timestamp _
          ∙ push_all-blocks (tx_ids b.height (successful_txs b)) b.timestamp _
          ∙ push_all-blocks (begin_ids b) b.timestamp w)

-- Whether a height is known when an operation is done.
abbrev pub known_after : Rows × BlockWriter × Bool → ℤ → Bool
known_after (db, w, went_well) h = has_height db.blocks h || has_height w.waiting.blocks h

pub flush-known_after :
    (commits : Bool) (db : Rows) (w : BlockWriter) (h : ℤ)
    → known_after (flush commits db w) h ≡ known_after (db, w, true) h
unfolding flush
flush-known_after commits db w h = elim (Bool-cases (is_empty w.waiting.blocks)) [
  | inl e ↦ rw e refl
  | inr e ↦ rw e (written commits)
]
  where
    written :
        (c : Bool)
        → known_after
            (if c
              then (
                record {
                  blocks = insert_blocks db.blocks w.waiting.blocks;
                  events = db.events ++ w.waiting.events;
                  depths = db.depths ++ w.waiting.depths;
                },
                record w { waiting = no_rows },
                true,
              )
              else (db, w, false))
            h
          ≡ known_after (db, w, true) h
    written true =
        or-false (has_height (insert_blocks db.blocks w.waiting.blocks) h)
        ∙ has_height-insert_blocks db.blocks w.waiting.blocks h
    written false = refl

-- A flush that went well leaves no block in the buffer.
pub flush-emptied :
    (commits : Bool) (db : Rows) (w : BlockWriter)
    → (let (later, after, went_well) = flush commits db w in
        went_well ≡ true → after.waiting.blocks ≡ [])
unfolding flush
flush-emptied commits db w = elim (Bool-cases (is_empty w.waiting.blocks)) [
  | inl e ↦ rw e (λ h. nothing w.waiting.blocks e)
  | inr e ↦ rw e (written commits)
]
  where
    nothing : (bs : List BlockRow) → is_empty bs ≡ true → bs ≡ []
    nothing [] h = refl
    nothing (b ∷ bs) h = cc

    written :
        (c : Bool)
        → (let (later, after, went_well) : Rows × BlockWriter × Bool =
              if c
              then (
                record {
                  blocks = insert_blocks db.blocks w.waiting.blocks;
                  events = db.events ++ w.waiting.events;
                  depths = db.depths ++ w.waiting.depths;
                },
                record w { waiting = no_rows },
                true,
              )
              else (db, w, false) in
            went_well ≡ true → after.waiting.blocks ≡ [])
    written true h = refl
    written false h = cc

-- A flush that can commit goes well.
pub flush-commits :
    (db : Rows) (w : BlockWriter)
    → (let (later, after, went_well) = flush true db w in went_well ≡ true)
unfolding flush
flush-commits db w = elim (Bool-cases (is_empty w.waiting.blocks)) [
  | inl e ↦ rw e refl
  | inr e ↦ rw e refl
]

-- An add makes known the height of its block, and no other.
pub add-known_after :
    (parse_f64 : Text → Option F64) (commits : Bool) (db : Rows) (b : Block) (w : BlockWriter)
    (h : ℤ)
    → known_after (add parse_f64 commits db b w) h ≡ known_after (db, w, true) h || eqb_ℤ b.height h
unfolding add
add-known_after parse_f64 commits db b w h =
    let full = buffered parse_f64 b w in
    let kept : known_after (db, full, true) h ≡ known_after (db, w, true) h || eqb_ℤ b.height h =
      ap (λ bs. has_height db.blocks h || has_height bs h) (buffered-blocks parse_f64 b w)
      ∙ ap (λ x. has_height db.blocks h || x)
          (has_height-append w.waiting.blocks (block_row_of parse_f64 b ∷ []) h)
      ∙ ap (λ x. has_height db.blocks h || (has_height w.waiting.blocks h || x))
          (or-false (eqb_ℤ b.height h))
      ∙ sym
          (or_assoc (has_height db.blocks h) (has_height w.waiting.blocks h) (eqb_ℤ b.height h)) in
    elim (Bool-cases (leb full.batch_size (length full.waiting.blocks))) [
      | inl e ↦ rw e (flush-known_after commits db full h ∙ kept)
      | inr e ↦ rw e kept
    ]

pub add-commits :
    (parse_f64 : Text → Option F64) (db : Rows) (b : Block) (w : BlockWriter)
    → (let (later, after, went_well) = add parse_f64 true db b w in went_well ≡ true)
unfolding add
add-commits parse_f64 db b w =
    let full = buffered parse_f64 b w in
    elim (Bool-cases (leb full.batch_size (length full.waiting.blocks))) [
      | inl e ↦ rw e (flush-commits db full)
      | inr e ↦ rw e refl
    ]

-- What is in the log stays there.
pub flush-keeps :
    (commits : Bool) (db : Rows) (w : BlockWriter) (h : ℤ)
    → has_height db.blocks h ≡ true
    → (let (later, after, went_well) = flush commits db w in has_height later.blocks h ≡ true)
unfolding flush
flush-keeps commits db w h k = elim (Bool-cases (is_empty w.waiting.blocks)) [
  | inl e ↦ rw e k
  | inr e ↦ rw e (written commits)
]
  where
    written :
        (c : Bool)
        → (let (later, after, went_well) : Rows × BlockWriter × Bool =
              if c
              then (
                record {
                  blocks = insert_blocks db.blocks w.waiting.blocks;
                  events = db.events ++ w.waiting.events;
                  depths = db.depths ++ w.waiting.depths;
                },
                record w { waiting = no_rows },
                true,
              )
              else (db, w, false) in
            has_height later.blocks h ≡ true)
    written true =
        has_height-insert_blocks db.blocks w.waiting.blocks h
        ∙ ap (λ x. x || has_height w.waiting.blocks h) k
    written false = k

pub add-keeps :
    (parse_f64 : Text → Option F64) (commits : Bool) (db : Rows) (b : Block) (w : BlockWriter)
    (h : ℤ)
    → has_height db.blocks h ≡ true
    → (let (later, after, went_well) = add parse_f64 commits db b w in
        has_height later.blocks h ≡ true)
unfolding add
add-keeps parse_f64 commits db b w h k =
    let full = buffered parse_f64 b w in
    elim (Bool-cases (leb full.batch_size (length full.waiting.blocks))) [
      | inl e ↦ rw e (flush-keeps commits db full h k)
      | inr e ↦ rw e k
    ]
