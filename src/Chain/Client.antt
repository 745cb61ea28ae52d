-- ===== src/Chain/Client.antt =====
-- crates/midgard-chain/src/client.rs: the client of a node, and the iterator over a range of
-- blocks. What the node replies to a request is an argument of an operation, so that a request that
-- is made again may get another reply. Of two concurrent requests that fail, the error of the first
-- in the order of the code is returned. Waiting between attempts and logging are left out.
pub mod Retries
pub mod Runs
pub mod Iterator
pub mod Served
pub mod Ahead
use midgard_rs.Common.{
  ℕ, zero, suc, ◌+◌, ◌*◌, ◌/◌, ◌%◌, ◌^◌, ◌==◌, Bool, true, false, ◌&&◌, ◌||◌, not, Option, none,
  some, List, [], ◌∷◌, ◌++◌, Result, ok, err, map_err, ◌>>=◌, if◌then◌else◌, leb,
}
use Prim.Native.Nat.{min, max}
use midgard_rs.Common.Int.{ℤ, pos, eqb_ℤ, ltb_ℤ, rem_euclid}
use midgard_rs.Common.Word.{wrap, add_i64, sub_i64}
use midgard_rs.Common.Text.{Text, codes}
use midgard_rs.Chain.Types.{Event, TxResult, Block}
use midgard_rs.Chain.Rpc as Rpc
use midgard_rs.Chain.Rpc.{RpcError, RpcClient, Reply, call, call_batch}

pub data ChainError : Type 0 where
  rpc : RpcError → ChainError
  height_mismatch : ℤ → ℤ → ChainError
  bad_timestamp : ℤ → ChainError
  config : Text → ChainError

-- The settings of the node that the client reads.
pub record ThorChain : Type 0 where
  pub tendermint_base : Text
  pub parallelism : ℕ
  pub fetch_batch_size : ℕ
  pub max_status_retries : ℕ

pub record Client : Type 0 where
  pub rpc_client : RpcClient
  pub batch_size : ℕ
  pub parallelism : ℕ
  pub max_status_retries : ℕ

-- `Client::new`, where the HTTP client can be built or not.
unfoldable pub new : Bool → ThorChain → Result ChainError Client
new is_built cfg =
    if cfg.parallelism == 0 || cfg.fetch_batch_size == 0
    then err (config (codes "fetch_batch_size and parallelism must both be at least 1"))
    else if not (cfg.fetch_batch_size % cfg.parallelism == 0)
    then err (config (codes "fetch_batch_size ("))
    else do
      rpc_client ← map_err rpc (Rpc.new is_built cfg.tendermint_base)
      ok (record {
        rpc_client = rpc_client;
        batch_size = cfg.fetch_batch_size;
        parallelism = cfg.parallelism;
        max_status_retries = cfg.max_status_retries;
      })

pub record Status : Type 0 where
  pub latest_block_height : ℕ

-- What the client reads of the two responses; the time in nanoseconds since the epoch.
pub record BlockResponse : Type 0 where
  pub height : ℕ
  pub unix_nanos : ℤ
  pub hash : Text
  pub chain_id : Text
  pub txs : List (List ℕ)

pub record BlockResults : Type 0 where
  pub height : ℕ
  pub finalize_block_events : List Event
  pub txs_results : Option (List TxResult)

-- `i64::try_from`
unfoldable pub block_time_to_nano : ℤ → ℤ → Result ChainError ℤ
block_time_to_nano height nanos =
    if eqb_ℤ (wrap nanos) nanos then ok nanos else err (bad_timestamp height)

unfoldable pub assemble : ℤ → BlockResponse → BlockResults → Result ChainError Block
assemble requested b r =
    let block_height = wrap (pos b.height) in
    let results_height = wrap (pos r.height) in
    if not (eqb_ℤ block_height requested)
    then err (height_mismatch requested block_height)
    else if not (eqb_ℤ results_height requested)
    then err (height_mismatch requested results_height)
    else do
      timestamp ← block_time_to_nano requested b.unix_nanos
      ok (record {
        height = requested;
        timestamp = timestamp;
        hash = b.hash;
        chain_id = b.chain_id;
        finalize_block_events = r.finalize_block_events;
        txs_results = r.txs_results;
        txs = b.txs;
      })

-- The replies of a node: to a call for a height, and to a batch of calls for a first height and a
-- number of heights.
pub record Node (Json : Type 0) : Type 0 where
  pub block : ℤ → Reply Json
  pub block_results : ℤ → Reply Json
  pub blocks : ℤ → ℕ → Reply Json
  pub blocks_results : ℤ → ℕ → Reply Json

-- What the deserializer says of a result.
pub record Formats (Json : Type 0) : Type 0 where
  pub status : Json → Result Text Status
  pub block : Json → Result Text BlockResponse
  pub results : Json → Result Text BlockResults

-- `zip`, `enumerate` and the first error of `assemble`.
unfoldable pub assemble_all :
    ℤ → ℕ → List BlockResponse → List BlockResults → Result ChainError (List Block)
assemble_all from i [] rs = ok []
assemble_all from i (b ∷ bs) [] = ok []
assemble_all from i (b ∷ bs) (r ∷ rs) = do
  x ← assemble (add_i64 from (pos i)) b r
  xs ← assemble_all from (i + 1) bs rs
  ok (x ∷ xs)

unfoldable pub chunks_of : Client → ℕ → ℕ
chunks_of c count = if leb 2 c.parallelism && count % c.parallelism == 0 then c.parallelism else 1

module _ {Json : Type 0} (formats : Formats Json) where
  unfoldable pub fetch_block : Client → Node Json → ℤ → Result ChainError Block
  fetch_block c node height = do
    b ← map_err rpc (call formats.block c.rpc_client.url (codes "block") (node.block height))
    r ←
        map_err rpc (
          call formats.results c.rpc_client.url (codes "block_results") (node.block_results height))
    assemble height b r

  unfoldable pub fetch_batch : Client → Node Json → ℤ → ℕ → Result ChainError (List Block)
  fetch_batch c node from count = do
    bs ←
        map_err rpc
          (call_batch formats.block c.rpc_client.url (codes "block") count (node.blocks from count))
    rs ← map_err rpc (
        call_batch formats.results c.rpc_client.url (codes "block_results") count
          (node.blocks_results from count))
    assemble_all from 0 bs rs

  -- The chunks from the i-th on.
  unfoldable pub fetch_chunks : Client → Node Json → ℤ → ℕ → ℕ → ℕ → Result ChainError (List Block)
  fetch_chunks c node from zero i per_chunk = ok []
  fetch_chunks c node from (suc n) i per_chunk = do
    bs ← fetch_batch c node (add_i64 from (wrap (pos (i * per_chunk)))) per_chunk
    rest ← fetch_chunks c node from n (i + 1) per_chunk
    ok (bs ++ rest)

  unfoldable pub fetch_range : Client → Node Json → ℤ → ℕ → Result ChainError (List Block)
  unfolding chunks_of
  fetch_range c node from zero = ok []
  fetch_range c node from (suc zero) = do b ← fetch_block c node from; ok (b ∷ [])
  fetch_range c node from (suc (suc n)) =
      let chunks = chunks_of c (suc (suc n)) in
      fetch_chunks c node from chunks 0 (suc (suc n) / chunks)

  unfoldable pub first_block_hash : Client → Node Json → Result ChainError Text
  first_block_hash c node = do b ← fetch_block c node (pos 1); ok b.hash

-- The attempts of `status` that are left, the error of the last one, and the number of the next.
-- None is the panic of `expect`.
module _ {Json : Type 0} (formats : Formats Json) (c : Client) (replies : ℕ → Reply Json) where
  abbrev pub attempts : ℕ → ℕ → Option RpcError → Option (Result ChainError Status)
  attempts zero i none = none
  attempts zero i (some e) = some (err (rpc e))
  attempts (suc n) i last =
      elim (call formats.status c.rpc_client.url (codes "status") (replies i)) [
        | ok s ↦ some (ok s)
        | err e ↦ attempts n (i + 1) (some e)
      ]

  unfoldable pub status : Option (Result ChainError Status)
  status = attempts (max c.max_status_retries 1) 0 none

pub record BlockIterator : Type 0 where
  pub next : ℤ
  pub through : ℤ
  pub buffered : List Block

-- `Client::iterator`
abbrev pub iterator : ℤ → ℤ → BlockIterator
iterator from through = record { next = from; through = through; buffered = [] }

-- `remove(0)` of the buffer, or the end where it is empty.
abbrev pub take_first : BlockIterator → Option Block × BlockIterator
take_first it = elim it.buffered [
  | [] ↦ (none, it)
  | b ∷ bs ↦ (some b, record it { buffered = bs })
]

module _ {Json : Type 0} (formats : Formats Json) where
  -- The refill of an empty buffer, for the range that is not passed.
  unfoldable pub refill : Client → Node Json → BlockIterator → Result ChainError BlockIterator
  refill c node it =
      let remaining = rem_euclid (add_i64 (sub_i64 it.through it.next) (pos 1)) (2 ^ 64) in
      let count = min remaining c.batch_size in
      do
        bs ← fetch_range formats c node it.next count
        ok (record it { next = add_i64 it.next (wrap (pos count)); buffered = bs })

  -- `BlockIterator::next`. An error leaves the iterator as it is.
  unfoldable pub next_block :
      Client → Node Json → BlockIterator → Result ChainError (Option Block × BlockIterator)
  next_block c node it = elim it.buffered [
    | b ∷ bs ↦ ok (take_first it)
    | [] ↦
        if ltb_ℤ it.through it.next
        then ok (none, it)
        else do filled ← refill c node it; ok (take_first filled)
  ]
