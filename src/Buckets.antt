-- ===== src/Buckets.antt =====
-- crates/midgard-db/src/buckets.rs: time buckets for the history endpoints.
pub mod Calendar
pub mod Interval
pub mod Generate
mod Tests
