-- ===== src/Api.antt =====
-- crates/midgard-api: what a handler does around its query.
pub mod Cache
pub mod Query
pub mod Depths
pub mod Answer
mod Tests
