-- ===== src/Daemon.antt =====
-- crates/midgard: the daemon that follows the chain.
pub mod Sync
pub mod Bootstrap
mod Tests
