-- ===== src/Cursor.antt =====
-- crates/midgard-db/src/block_log.rs: the cached first and last block. The two atomics of each
-- cache are a record, since each is only ever stored and loaded whole by one writer.
use midgard_rs.Common.{Bool, if◌then◌else◌, Option, none, some}
use midgard_rs.Common.Int.{ℤ, pos, eqb_ℤ}
use midgard_rs.Common.Word.{add_i64}
use midgard_rs.Core.Time.{Nano, Second, to_second}

pub record BlockPos : Type 0 where
  pub height : ℤ
  pub timestamp : Nano

unfoldable pub is_empty : BlockPos → Bool
is_empty p = eqb_ℤ p.height (pos 0)

pub record BlockCursor : Type 0 where
  pub first : BlockPos
  pub last : BlockPos

-- `BlockCursor::new`, the default of every atomic being 0.
abbrev pub new : BlockCursor
new = record {
  first = record { height = pos 0; timestamp = pos 0 };
  last = record { height = pos 0; timestamp = pos 0 };
}

-- `refresh`, from what `first_block` and `last_block` read from the database.
abbrev stored : Option BlockPos → BlockPos → BlockPos
stored none old = old
stored (some p) old = p

unfoldable pub refresh : Option BlockPos → Option BlockPos → BlockCursor → BlockCursor
refresh first_block last_block c = record {
  first = stored first_block c.first;
  last = stored last_block c.last;
}

unfoldable pub observe : BlockPos → BlockCursor → BlockCursor
unfolding is_empty
observe p c = record { first = if is_empty c.first then p else c.first; last = p }

unfoldable pub now_second : BlockCursor → Second
unfolding to_second
now_second c = add_i64 (to_second c.last.timestamp) (pos 1)

unfoldable pub next_height : BlockCursor → ℤ
next_height c = add_i64 c.last.height (pos 1)
