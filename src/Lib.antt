-- ===== src/Lib.antt =====
-- midgard-rs records the blocks of THORChain in a database and answers queries about them. The daemon
-- (crates/midgard) asks a node for blocks, lists of events, through the client of crates/midgard-chain.
-- The recorder (crates/midgard-record) decodes each event by its kind, gives it an identifier that
-- sorts in chain order (crates/midgard-db/src/eventid.rs), and keeps the depth of every pool up to
-- date; rows of changed depths are written after each block. A query (crates/midgard-api) is split
-- into time buckets (crates/midgard-db/src/buckets.rs) that are limited to the blocks known to the
-- cursor (crates/midgard-db/src/block_log.rs). Names of assets and times are in crates/midgard-core.
--
-- Common: the shared helpers. Numbers are native; i64 is an integer that wraps at 2 ^ 63
--   (Common.Word), as in a release build. A text is the list of its code points (Common.Text).
-- Core: Core.Asset is asset.rs (`CoinType::of` is `coin_type`, `Display` is `to_string`), Core.Time is
--   time.rs, Core.Error is error.rs.
-- EventId: eventid.rs; Order and Parse have its laws.
-- Cursor: the cached first and last block of block_log.rs; what `refresh` reads is an argument.
-- Db: Db.Tables is the lists of tables of tables.rs.
-- Buckets: buckets.rs. Interval has the intervals with `truncate` and `advance`, Calendar the date
--   arithmetic, Generate the way from the parameters of a query to the boundaries.
-- Chain: Types is types.rs, the attributes of an event and the phases of a block. Rpc is rpc.rs, a
--   call and a batch of calls; Client is client.rs, the fetch of a block and of a range, the attempts
--   for a status and the iterator (`BlockIterator::next` is `next_block`). ThorNode is thornode.rs,
--   the amounts that a node says of a pool.
-- Record: Coin is coin.rs. Rows, Direction, Attributes, Decoders and Decode are events.rs: the structs
--   of the rows, the direction of a swap, the helpers that read an attribute, one decoder for each
--   kind, and `decode`. Depth is depth.rs: the tracker, what an event books on a pool in exact
--   integers (Ledger), the writes of an event (Steps), and what follows for the balances and for the
--   report of changed pools (Balances, Changes). Writer is the part of writer.rs in front of the SQL:
--   `push`, `add` and `flush`; its Ledger follows the event rows into the database, and Known the
--   heights of the blocks. Tables is the rest of writer.rs: the INSERT statements of a batch, with
--   their tables and columns (Inserts) and the values bound to them (Values). Tables.Fields and
--   Decode.Kinds describe the rows of an event, and the kinds that a row is for, apart from that code.
--   Rollback is the SQL of block_log.rs on those rows: `last_block`, `first_block`, `hash_at` and
--   `delete_from_height`.
-- Daemon: Daemon.Sync is sync.rs, with `step`, `catch_up` and `follow` over the client, the writer,
--   the cursor and the database. Bootstrap is bootstrap.rs, the seed of the depths.
-- Config: Config.Env is env.rs, the overrides of the settings from the environment; Config.Json is the
--   tree of serde_json that it works on.
-- Api: Cache is cache.rs, Query is query.rs, Depths is the handler of the depth history
--   (handlers/depths.rs), from the query to the items; Answer has the response to an error (error.rs),
--   the choice of the pool that prices RUNE (usd.rs) and the check of `health`.
--
-- Mutation is state passing: an operation takes the tracker, the cursor or the writer and returns the
-- new one. `touch` takes the write that its caller makes through the reference it gets. `Result` and
-- `?` are Common.Fallible and `do`. The loop of `boundaries` runs on the number of rounds that its own
-- guard leaves it, and the loops of `restrict` on the number of boundaries, so none needs other fuel.
-- The loop of `catch_up` has fuel for one round more than there are blocks in its range, which is
-- enough by a theorem. The database is the rows that are committed, and whether a flush commits is an
-- input of `add`. What a node replies is an input of each round, so it may change between requests.
--
-- Parameters: the parser of floats of the standard library; what `key_str` and `value_str` of the
-- tendermint crate return is in the data of an event; what HTTP and serde_json make of a reply, and
-- what the deserializer of a type says of a result. Of the message of an error from a query or from
-- the node the fixed beginning is kept.
--
-- Not modelled: HTTP and JSON themselves, logging and waiting (with `is_not_ready_yet`, which only
-- chooses what is logged), durations and the files of the configuration, the schema in SQL, the other
-- handlers of the API with their SQL, and arithmetic on floats.
pub mod Common
pub mod Core
pub mod Cursor
pub mod EventId
pub mod Buckets
pub mod Record
pub mod Chain
pub mod Db
pub mod Daemon
pub mod Api
pub mod Config
