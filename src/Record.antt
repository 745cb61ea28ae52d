-- ===== src/Record.antt =====
-- crates/midgard-record: coins, events, pool depths and the writer.
pub mod Coin
pub mod Rows
pub mod Direction
pub mod Attributes
pub mod Decoders
pub mod Decode
pub mod Depth
mod Tests
pub mod Writer
pub mod Values
pub mod Inserts
pub mod Tables
pub mod Rollback
