-- ===== src/Config.antt =====
-- crates/midgard-config: the settings.
pub mod Json
pub mod Env
mod Tests
