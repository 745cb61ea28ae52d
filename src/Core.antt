-- ===== src/Core.antt =====
-- crates/midgard-core: times, errors and asset names.
pub mod Time
pub mod Error
pub mod Asset
