-- ===== src/Record/Rollback/Fork.antt =====
-- crates/midgard-db/src/block_log.rs: a rollback takes away the blocks of a fork, and nothing else.
use midgard_rs.Common.{
  ◌≡◌, refl, Bool, true, false, some, List, [], ◌∷◌, ◌++◌, if◌then◌else◌, arith,
}
use midgard_rs.Common.Int.{ℤ, ltb_ℤ, eqb_ℤ, leb_ℤ}
use midgard_rs.Record.Writer.{Rows, BlockRow, Pending, PendingDepth}
use midgard_rs.Record.Rollback.{
  row_at, events_before, depths_before, blocks_below, delete_from_height,
}

-- What holds of the rows of a table.
abbrev pub All : {A : Type 0} → (A → Bool) → List A → Type 0
All test [] = Unit
All test (x ∷ xs) = (test x ≡ true) × All test xs

lt-ne : (a b : ℤ) → ltb_ℤ a b ≡ true → eqb_ℤ a b ≡ false
lt-ne a b h = ground arith

le-not_lt : (a b : ℤ) → leb_ℤ b a ≡ true → ltb_ℤ a b ≡ false
le-not_lt a b h = ground arith

row_at-append :
    (xs ys : List BlockRow) (h : ℤ)
    → All (λ b. ltb_ℤ b.height h) xs
    → row_at (xs ++ ys) h ≡ row_at ys h
row_at-append [] ys h k = refl
row_at-append (x ∷ xs) ys h (e, k) = rw (lt-ne x.height h e) (row_at-append xs ys h k)

-- Rows before a time or height stay, rows from it on go.
module _ {A : Type 0} (key : A → ℤ) (at_least : ℤ) where
  abbrev kept : List A → List A
  kept [] = []
  kept (x ∷ xs) = let rest = kept xs in if ltb_ℤ (key x) at_least then x ∷ rest else rest

  kept-append :
      (xs ys : List A)
      → All (λ x. ltb_ℤ (key x) at_least) xs
      → All (λ y. leb_ℤ at_least (key y)) ys
      → kept (xs ++ ys) ≡ xs
  kept-append [] [] h k = refl
  kept-append [] (y ∷ ys) h (e, k) = rw (le-not_lt (key y) at_least e) (kept-append [] ys tt k)
  kept-append (x ∷ xs) ys (e, h) k = rw (e, kept-append xs ys h k) refl

events_before-kept :
    (t : ℤ) (es : List Pending) → events_before t es ≡ kept (λ e. e.block_timestamp) t es
events_before-kept t [] = refl
events_before-kept t (e ∷ es) = rw (events_before-kept t es) refl

depths_before-kept :
    (t : ℤ) (ds : List PendingDepth) → depths_before t ds ≡ kept (λ d. d.block_timestamp) t ds
depths_before-kept t [] = refl
depths_before-kept t (d ∷ ds) = rw (depths_before-kept t ds) refl

blocks_below-kept : (h : ℤ) (bs : List BlockRow) → blocks_below h bs ≡ kept (λ b. b.height) h bs
blocks_below-kept h [] = refl
blocks_below-kept h (b ∷ bs) = rw (blocks_below-kept h bs) refl

-- The rows of the blocks before a height, and before the time of its block.
pub record AllBefore (h t : ℤ) (old : Rows) : Type 0 where
  pub blocks_low : All (λ b. ltb_ℤ b.height h) old.blocks
  pub events_early : All (λ e. ltb_ℤ e.block_timestamp t) old.events
  pub depths_early : All (λ d. ltb_ℤ d.block_timestamp t) old.depths

-- The rows of the blocks from it on.
pub record AllFrom (h t : ℤ) (fork : Rows) : Type 0 where
  pub blocks_high : All (λ b. leb_ℤ h b.height) fork.blocks
  pub events_late : All (λ e. leb_ℤ t e.block_timestamp) fork.events
  pub depths_late : All (λ d. leb_ℤ t d.block_timestamp) fork.depths

abbrev pub both : Rows → Rows → Rows
both old fork = record {
  blocks = old.blocks ++ fork.blocks;
  events = old.events ++ fork.events;
  depths = old.depths ++ fork.depths;
}

-- If the log has a block of the height among the later rows, the rows before it have lower heights
-- and earlier times, and those from it on have no lower height and no earlier time, then
-- `delete_from_height` leaves exactly the rows before it where its transaction commits, and all
-- rows and an error where it does not.
pub delete_from_height-fork :
    (commits : Bool) (old fork : Rows) (b : BlockRow) (h : ℤ)
    → row_at fork.blocks h ≡ some b
    → AllBefore h b.timestamp old
    → AllFrom h b.timestamp fork
    → ◌≡◌ {A = Rows × Bool}
        (delete_from_height commits (both old fork) h)
        (if commits then old else both old fork, commits)
unfolding delete_from_height
delete_from_height-fork commits old fork b h found before from =
    rw (delete_from_height, row_at-append old.blocks fork.blocks h before.blocks_low, found)
      (by_outcome commits)
  where
    by_outcome :
        (c : Bool)
        → ◌≡◌ {A = Rows × Bool}
            (if c
              then (
                record {
                  blocks = blocks_below h (old.blocks ++ fork.blocks);
                  events = events_before b.timestamp (old.events ++ fork.events);
                  depths = depths_before b.timestamp (old.depths ++ fork.depths);
                },
                true,
              )
              else (both old fork, false))
            (if c then old else both old fork, c)
    by_outcome false = refl
    by_outcome true =
        rw
          (
            blocks_below-kept h (old.blocks ++ fork.blocks),
            events_before-kept b.timestamp (old.events ++ fork.events),
            depths_before-kept b.timestamp (old.depths ++ fork.depths),
            kept-append (λ x. x.height) h old.blocks fork.blocks before.blocks_low from.blocks_high,
            kept-append (λ x. x.block_timestamp) b.timestamp old.events fork.events
                before.events_early from.events_late,
            kept-append (λ x. x.block_timestamp) b.timestamp old.depths fork.depths
                before.depths_early from.depths_late,
          )
          refl
