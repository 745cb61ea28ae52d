-- ===== src/Record/Decoders.antt =====
-- crates/midgard-record/src/events.rs: the decoders, one for each kind of event. A decoder
-- evaluates the fields of its struct in the order of the source, so that the first bad attribute
-- gives the error.
pub mod Pools
pub mod Transactions
pub mod Network
