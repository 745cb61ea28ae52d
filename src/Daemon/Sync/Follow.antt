-- ===== src/Daemon/Sync/Follow.antt =====
-- crates/midgard/src/sync.rs: at the tip the cursor passes no block that is not in the database.
use midgard_rs.Common.{
  ℕ, zero, suc, ◌+◌, ◌<◌, ◌≤◌, ◌^◌, ◌||◌, ◌≡◌, refl, sym, ap, ◌∙◌, Bool, true, false, not, inl, inr,
  Option, List, [], Result, ok, arith, if◌then◌else◌,
}
use midgard_rs.Common.Int.{ℤ, pos, eqb_ℤ}
use midgard_rs.Common.Word.{add_i64-pos}
use midgard_rs.Common.Text.{Text}
use midgard_rs.Common.Int.Order.{eqb_self}
use midgard_rs.Chain.Types.{Block}
use midgard_rs.Chain.Client.{ChainError, Formats, fetch_block}
use midgard_rs.Chain.Client.Runs.{fetch_block-height}
use midgard_rs.Cursor.{observe}
use midgard_rs.Record.Rows.{F64}
use midgard_rs.Record.Writer.{BlockRow, has_height}
use midgard_rs.Record.Writer.Known.{flush-known_after, flush-emptied, flush-keeps, add-keeps}
use midgard_rs.Daemon.Sync.{Syncer, Moment, observed, add_block, flush_blocks, commit_block, follow}
use midgard_rs.Daemon.Sync.CatchUp.{
  knows, height_after, height_after-suc, le-cases, Result-cases, add_block-knows, or-true,
}

abbrev pub in_log : Syncer → ℤ → Bool
in_log s h = has_height s.db.blocks h

-- From one state to another the cursor passes `k` blocks, which are in the log.
pub record Commits (h k : ℕ) (s after : Syncer) : Type 0 where
  pub cursor_at : after.cursor.last.height ≡ height_after s h k
  pub committed : (j : ℕ) → h ≤ j → j < h + k → in_log after (pos j) ≡ true
  pub keeps : (z : ℤ) → in_log s z ≡ true → in_log after z ≡ true

or-nothing :
    (a : Bool) (bs : List BlockRow) (z : ℤ) → bs ≡ [] → a || has_height bs z ≡ true → a ≡ true
or-nothing true bs z e h = refl
or-nothing false bs z e h = sym (ap (λ xs. has_height xs z) e) ∙ h

Commits-cons :
    (h k : ℕ) (s now after : Syncer)
    → now.cursor.last.height ≡ pos h
    → in_log now (pos h) ≡ true
    → ((z : ℤ) → in_log s z ≡ true → in_log now z ≡ true)
    → Commits (h + 1) k now after
    → Commits h (suc k) s after
Commits-cons h k s now after at_h known kept later = record {
  cursor_at = later.cursor_at ∙ height_after-suc now h k at_h;
  committed = λ j a b. elim (le-cases h j a) [
    | inl same ↦ rw (sym same) (later.keeps (pos h) known)
    | inr above ↦ later.committed j above (omega arith)
  ];
  keeps = λ z e. later.keeps z (kept z e);
}

Commits-nothing :
    (h : ℕ) (s after : Syncer)
    → after.cursor ≡ s.cursor
    → ((z : ℤ) → in_log s z ≡ true → in_log after z ≡ true)
    → Commits h 0 s after
Commits-nothing h s after e k = record {
  cursor_at = ap (λ c. c.last.height) e;
  committed = λ j a b. absurd (omega arith);
  keeps = k;
}

module _ {Json : Type 0} (formats : Formats Json) (parse_f64 : Text → Option F64) where
  -- What becomes of the block of a height.
  pub record OneCommit (h : ℕ) (s : Syncer) (r : Syncer × Bool) : Type 0 where
    pub client_same : r.0.client ≡ s.client
    pub log_kept : (z : ℤ) → in_log s z ≡ true → in_log r.0 z ≡ true
    pub went_on : r.1 ≡ true → (in_log r.0 (pos h) ≡ true) × (r.0.cursor.last.height ≡ pos h)
    pub stopped : r.1 ≡ false → r.0.cursor ≡ s.cursor

  chosen :
      (h : ℕ) (s : Syncer) (a f : Bool) (x y z : Syncer)
      → OneCommit h s (x, false)
      → OneCommit h s (y, false)
      → (a ≡ true → f ≡ true → OneCommit h s (z, true))
      → OneCommit h s (if not a then (x, false) else if not f then (y, false) else (z, true))
  chosen h s false f x y z p q r = p
  chosen h s true false x y z p q r = q
  chosen h s true true x y z p q r = r refl refl

  commit_block-OneCommit :
      (m : Moment Json) (b : Block) (h : ℕ) (s : Syncer)
      → b.height ≡ pos h
      → OneCommit h s (commit_block formats parse_f64 m b s)
  unfolding commit_block add_block flush_blocks observe
  commit_block-OneCommit m b h s e =
      let (added, add_ok) = add_block formats parse_f64 m.add_commits b s in
      let (flushed, flush_ok) = flush_blocks formats parse_f64 m.flush_commits added in
      let kept : (z : ℤ) → in_log s z ≡ true → in_log added z ≡ true =
        λ z k. add-keeps parse_f64 m.add_commits s.db b s.writer z k in
      let kept2 : (z : ℤ) → in_log s z ≡ true → in_log flushed z ≡ true =
        λ z k. flush-keeps m.flush_commits added.db added.writer z (kept z k) in
      let seen : knows added (pos h) ≡ true =
        add_block-knows formats parse_f64 m.add_commits b s (pos h)
        ∙ ap (λ y. knows s (pos h) || eqb_ℤ y (pos h)) e
        ∙ ap (λ y. knows s (pos h) || y) (eqb_self (pos h))
        ∙ or-true (knows s (pos h)) in
      let now_in : flushed.writer.waiting.blocks ≡ [] → in_log flushed (pos h) ≡ true = λ empty.
        or-nothing (in_log flushed (pos h)) flushed.writer.waiting.blocks (pos h) empty
          (flush-known_after m.flush_commits added.db added.writer (pos h) ∙ seen) in
      chosen h s add_ok flush_ok added flushed (observed formats parse_f64 b flushed)
        (record { client_same = refl; log_kept = kept; went_on = λ k. cc; stopped = λ k. refl })
        (record { client_same = refl; log_kept = kept2; went_on = λ k. cc; stopped = λ k. refl })
        (λ a f. record {
          client_same = refl;
          log_kept = kept2;
          went_on = λ k. (now_in (flush-emptied m.flush_commits added.db added.writer f), e);
          stopped = λ k. cc;
        })

  abbrev pub Follows : ℕ → ℕ → Syncer → Syncer × Result ChainError Unit → Type 0
  Follows n h s out = (k : ℕ) × (k ≤ n) × Commits h k s out.0

  carry_on :
      (n h : ℕ) (s now : Syncer) (on : Bool) (x : Syncer × Result ChainError Unit)
      → OneCommit h s (now, on)
      → Follows n (h + 1) now x
      → Follows (suc n) h s (if on then x else (now, ok tt))
  carry_on n h s now false x one later =
      (0, omega arith, Commits-nothing h s now (one.stopped refl) one.log_kept)
  carry_on n h s now true (after, r) one (k, bound, commits) =
      let (known, at_h) = one.went_on refl in
      (suc k, omega arith, Commits-cons h k s now after at_h known one.log_kept commits)

  -- Whatever the node replies and whichever flushes commit, `follow` for n heights from h on moves
  -- the cursor over k of them, k at most n, one height after the other; each of these heights is in
  -- the log of blocks of the database, and no height that was there is gone.
  pub follow-Follows :
      (n h : ℕ) (world : ℕ → Moment Json) (i : ℕ) (s : Syncer)
      → h + n < 2 ^ 63
      → Follows n h s (follow formats parse_f64 n (pos h) world i s)
  follow-Follows zero h world i s small = (0, omega arith, Commits-nothing h s s refl (λ z k. k))
  follow-Follows (suc n) h world i s small =
      elim (Result-cases (fetch_block formats s.client (world i).node (pos h))) [
        | inl (e, f) ↦ rw (follow, f) (0, omega arith, Commits-nothing h s s refl (λ z k. k))
        | inr (b, f) ↦
            let (now, on) = commit_block formats parse_f64 (world i) b s in
            let one =
              commit_block-OneCommit (world i) b h s
                (fetch_block-height formats s.client (world i).node (pos h) b f) in
            rw (follow, f, add_i64-pos h 1 (omega arith))
              (carry_on n h s now on _ one
                (follow-Follows n (h + 1) world (i + 1) now (omega arith)))
      ]
