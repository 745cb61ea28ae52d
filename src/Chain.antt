-- ===== src/Chain.antt =====
-- crates/midgard-chain: blocks and their events, and the client that fetches them from a node.
pub mod Types
pub mod Rpc
pub mod Client
pub mod ThorNode
pub mod Tests
