-- ===== src/Daemon/Sync/Served.antt =====
-- crates/midgard/src/sync.rs: with a node that has the blocks and flushes that commit, a step
-- reaches the tip.
use midgard_rs.Common.{
  ℕ, zero, suc, ◌+◌, ◌-◌, ◌<◌, ◌≤◌, ◌^◌, ◌≡◌, refl, sym, ap, ◌∙◌, Bool, true, false, Bool-cases,
  inl, inr, Option, some, List, [], ◌++◌, Result, ok, arith,
}
use mathlib.Core.List.{append-nil, append_assoc}
use midgard_rs.Common.Int.{pos, ltb_ℤ, max_ℤ}
use midgard_rs.Common.Word.{wrap, add_i64, add_i64-pos, sub_i64}
use midgard_rs.Common.Text.{Text}
use midgard_rs.Common.Int.Order.{ltb-pos_ge}
use midgard_rs.Chain.Types.{Block}
use midgard_rs.Chain.Client.{ChainError, Formats, BlockResponse, BlockResults}
use midgard_rs.Chain.Client.Served.{IsServed, block_of, fetch_block-served}
use midgard_rs.Chain.Client.Ahead.{ahead, iterator-ahead, next_block-ahead, next_block-past}
use midgard_rs.Chain.Client.Runs.{wrap-pos}
use midgard_rs.Chain.Client.Retries.{AllFail, attempt, status-answer}
use midgard_rs.Chain.Rpc.{Reply}
use Prim.Native.Nat.{max}
use midgard_rs.Cursor.{next_height, observe}
use midgard_rs.Record.Rows.{F64}
use midgard_rs.Record.Writer.{Pending}
use midgard_rs.Record.Writer.Ledger.{block_rows, add-all_events, flush-all_events}
use midgard_rs.Record.Writer.Known.{add-commits, flush-commits}
use midgard_rs.Daemon.Sync.{
  Syncer, Moment, observed, add_block, flush_blocks, commit_block, follow, catch_up_loop, catch_up,
  first_height, step_to, step, span, batch_threshold,
}
use midgard_rs.Daemon.Sync.CatchUp.{height_after, height_after-suc, span-pos}

-- The event rows of the database, then those of the buffer.
abbrev pub rows_kept : Syncer → List Pending
rows_kept s = s.db.events ++ s.writer.waiting.events

-- The rows of the blocks of `n` heights from one on.
abbrev pub rows_of_run : (Text → Option F64) → (ℕ → Block) → ℕ → ℕ → List Pending
rows_of_run parse_f64 f h zero = []
rows_of_run parse_f64 f h (suc n) = block_rows parse_f64 (f h) ++ rows_of_run parse_f64 f (h + 1) n

-- From one state to another `n` blocks are stored and passed, each once.
pub record Stores (parse_f64 : Text → Option F64) (f : ℕ → Block) (h n : ℕ) (s after : Syncer)
    : Type 0 where
  pub cursor_at : after.cursor.last.height ≡ height_after s h n
  pub rows_are : rows_kept after ≡ rows_kept s ++ rows_of_run parse_f64 f h n

Stores-nothing :
    (parse_f64 : Text → Option F64) (f : ℕ → Block) (h : ℕ) (s : Syncer)
    → Stores parse_f64 f h 0 s s
Stores-nothing parse_f64 f h s = record {
  cursor_at = refl;
  rows_are = sym (append-nil (rows_kept s));
}

Stores-cons :
    (parse_f64 : Text → Option F64) (f : ℕ → Block) (h n : ℕ) (s now after : Syncer)
    → now.cursor.last.height ≡ pos h
    → rows_kept now ≡ rows_kept s ++ block_rows parse_f64 (f h)
    → Stores parse_f64 f (h + 1) n now after
    → Stores parse_f64 f h (suc n) s after
Stores-cons parse_f64 f h n s now after at_h rows later = record {
  cursor_at = later.cursor_at ∙ height_after-suc now h n at_h;
  rows_are =
      later.rows_are
      ∙ ap (λ xs. xs ++ rows_of_run parse_f64 f (h + 1) n) rows
      ∙ append_assoc (rows_kept s) (block_rows parse_f64 (f h)) (rows_of_run parse_f64 f (h + 1) n);
}

module _ {Json : Type 0} (formats : Formats Json) (parse_f64 : Text → Option F64) (t : ℕ)
    (json_b json_r : ℕ → Json) (b : ℕ → BlockResponse) (r : ℕ → BlockResults) where
  -- A round with a node that has the blocks, flushes that commit, and no cancellation.
  pub record IsGood (m : Moment Json) : Type 0 where
    pub served : IsServed formats m.node t json_b json_r b r
    pub add_fine : m.add_commits ≡ true
    pub flush_fine : m.flush_commits ≡ true
    pub goes_on : m.is_cancelled ≡ false

  abbrev pub the_block : ℕ → Block
  the_block = block_of b r

  -- One block in `follow`.
  record Kept (h : ℕ) (s now : Syncer) : Type 0 where
    client_same : now.client ≡ s.client
    at_h : now.cursor.last.height ≡ pos h
    rows_one : rows_kept now ≡ rows_kept s ++ block_rows parse_f64 (the_block h)

  add_block-fine :
      (m : Moment Json) (h : ℕ) (s : Syncer)
      → IsGood m
      → ((add_block formats parse_f64 m.add_commits (the_block h) s).1 ≡ true)
        × Kept h s (
            observed formats parse_f64
              (the_block h)
              (add_block formats parse_f64 m.add_commits (the_block h) s).0)
  unfolding add_block observe
  add_block-fine m h s good = (
    rw good.add_fine (add-commits parse_f64 s.db (the_block h) s.writer),
    record {
      client_same = refl;
      at_h = refl;
      rows_one = add-all_events parse_f64 m.add_commits s.db (the_block h) s.writer;
    },
  )

  commit_block-fine :
      (m : Moment Json) (h : ℕ) (s : Syncer)
      → IsGood m
      → (now : Syncer) × (commit_block formats parse_f64 m (the_block h) s ≡ (now, true))
        × Kept h s now
  unfolding commit_block add_block flush_blocks observe
  commit_block-fine m h s good =
      let (added, add_ok) = add_block formats parse_f64 m.add_commits (the_block h) s in
      let (flushed, flush_ok) = flush_blocks formats parse_f64 m.flush_commits added in
      let one : add_ok ≡ true = (add_block-fine m h s good).0 in
      let two : flush_ok ≡ true = rw good.flush_fine (flush-commits added.db added.writer) in
      (
        observed formats parse_f64 (the_block h) flushed,
        rw (one, two) refl,
        record {
          client_same = refl;
          at_h = refl;
          rows_one =
              flush-all_events m.flush_commits added.db added.writer
              ∙ add-all_events parse_f64 m.add_commits s.db (the_block h) s.writer;
        },
      )

  module _ (small : t + 1 < 2 ^ 63) (world : ℕ → Moment Json)
      (good : (i : ℕ) → IsGood (world i)) where
    follow-Stores :
        (n h i : ℕ) (s : Syncer)
        → h + n ≡ t + 1
        → (after : Syncer) × (follow formats parse_f64 n (pos h) world i s ≡ (after, ok tt))
          × Stores parse_f64 the_block h n s after
    follow-Stores zero h i s e = (s, refl, Stores-nothing parse_f64 the_block h s)
    follow-Stores (suc n) h i s e =
        let (now, f, kept) = commit_block-fine (world i) h s (good i) in
        let (after, g, stores) = follow-Stores n (h + 1) (i + 1) now (omega arith) in
        let got =
          fetch_block-served formats (world i).node t json_b json_r b r small (good i).served
            s.client h (omega arith) in
        (
          after,
          rw (follow, got, f, add_i64-pos h 1 (omega arith), g) refl,
          Stores-cons parse_f64 the_block h n s now after kept.at_h kept.rows_one stores,
        )

    catch_up_loop-Stores :
        (n h m i : ℕ) (s : Syncer)
        → h + n ≡ t + 1
        → h + m ≤ t + 1
        → 0 < s.client.batch_size
        → (after : Syncer) × (catch_up_loop formats parse_f64
              (suc n)
              (ahead the_block h m t)
              world
              i
              s
            ≡ some (after, ok tt))
          × Stores parse_f64 the_block h n s after
    catch_up_loop-Stores zero h m i s e inside batch =
        let past =
          next_block-past formats (world i).node t json_b json_r b r small (good i).served s.client
            batch h m (omega arith) inside in
        (s, rw (catch_up_loop, past) refl, Stores-nothing parse_f64 the_block h s)
    catch_up_loop-Stores (suc n) h m i s e inside batch =
        let (k, bound, next) =
          next_block-ahead formats (world i).node t json_b json_r b r small (good i).served s.client
            batch h m (omega arith) inside in
        let (added, add_ok) = add_block formats parse_f64 (world i).add_commits (the_block h) s in
        let now = observed formats parse_f64 (the_block h) added in
        let (fine, kept) = add_block-fine (world i) h s (good i) in
        let (after, g, stores) =
          catch_up_loop-Stores n (h + 1) k (i + 1) now (omega arith) bound
            (rw kept.client_same batch) in
        (
          after,
          rw (catch_up_loop, next, (good i).goes_on, fine) g,
          Stores-cons parse_f64 the_block h n s now after kept.at_h kept.rows_one stores,
        )

    catch_up-Stores :
        (h : ℕ) (s : Syncer)
        → h ≤ t
        → 0 < s.client.batch_size
        → (after : Syncer) × (catch_up formats parse_f64 (pos h) (pos t) world s
            ≡ some (after, ok tt))
          × Stores parse_f64 the_block h (t + 1 - h) s after
    unfolding catch_up
    catch_up-Stores h s k batch =
        let (after, e, stores) =
          catch_up_loop-Stores (t + 1 - h) h 0 0 s (omega arith) (omega arith) batch in
        let fuel : span formats parse_f64 (pos h) (pos t) + 1 ≡ suc (t + 1 - h) =
          omega (arith, span-pos formats parse_f64 h t (omega arith) small) in
        (after, rw (fuel, iterator-ahead the_block h t) e, stores)

    -- A step for a tip, from the next height of the cursor on.
    abbrev pub Reaches : ℕ → Syncer → Option (Syncer × Result ChainError Bool) → Type 0
    Reaches h s out =
        (after : Syncer) × (out ≡ some (after, ok true))
        × (after.cursor.last.height ≡ pos t)
        × (rows_kept after ≡ rows_kept s ++ rows_of_run parse_f64 the_block h (t + 1 - h))

    pub step_to-Reaches :
        (h : ℕ) (s : Syncer)
        → h ≤ t
        → 0 < s.client.batch_size
        → max_ℤ (next_height s.cursor) (first_height s) ≡ pos h
        → Reaches h s (step_to formats parse_f64 (pos t) world s)
    unfolding step_to
    step_to-Reaches h s k batch next =
        elim (Bool-cases (ltb_ℤ batch_threshold (add_i64 (sub_i64 (pos t) (pos h)) (pos 1)))) [
          | inl far ↦
              let (after, e, stores) = catch_up-Stores h s k batch in
              (
                after,
                rw (next, not_past, far, e) refl,
                stores.cursor_at ∙ at_tip s,
                stores.rows_are,
              )
          | inr near ↦
              let (after, e, stores) = follow-Stores (t + 1 - h) h 0 s (omega arith) in
              (
                after,
                rw (next, not_past, near, span-pos formats parse_f64 h t (omega arith) small, e)
                    refl,
                stores.cursor_at ∙ at_tip s,
                stores.rows_are,
              )
        ]
      where
        not_past : ltb_ℤ (pos t) (pos h) ≡ false
        not_past = ltb-pos_ge t h k

        at_tip : (z : Syncer) → height_after z h (t + 1 - h) ≡ pos t
        at_tip z =
            let some_left : t + 1 - h ≡ suc (t - h) = omega arith in
            ap (height_after z h) some_left ∙ ap pos (omega arith)

    -- With a node that has the blocks up to a tip and answers each batch in some order, flushes
    -- that commit, no cancellation, and a status that is answered with the tip within the attempts,
    -- a step that starts at a height h from 0 to the tip returns true with the cursor at the tip;
    -- the event rows in the database and the buffer are then those of before, followed by the rows
    -- of each block from h to the tip in order, each block once.
    pub step-Reaches :
        (h k : ℕ) (s : Syncer) (replies : ℕ → Reply Json)
        → h ≤ t
        → 0 < s.client.batch_size
        → max_ℤ (next_height s.cursor) (first_height s) ≡ pos h
        → AllFail formats s.client replies k 0
        → attempt formats s.client replies k ≡ ok (record { latest_block_height = t })
        → k < max s.client.max_status_retries 1
        → Reaches h s (step formats parse_f64 replies world s)
    unfolding step first_height
    step-Reaches h k s replies inside batch next failed answered small_k =
        let known =
          status-answer formats s.client replies k (record { latest_block_height = t }) failed
            answered small_k in
        let tip : wrap (pos t) ≡ pos t = wrap-pos t (omega arith) in
        rw (step, known, tip)
          (step_to-Reaches h (record s { chain_height = pos t }) inside batch next)
