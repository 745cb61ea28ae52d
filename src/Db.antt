-- ===== src/Db.antt =====
-- crates/midgard-db: the tables, and the deletion of blocks.
pub mod Tables
