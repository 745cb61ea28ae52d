-- ===== src/Chain/Tests.antt =====
-- A node with a few blocks, which answers a batch in order, and one that answers it in reverse.
use midgard_rs.Common.{
  ℕ, zero, suc, ◌≡◌, refl, ◌<◌, ◌%◌, true, none, some, List, [], ◌∷◌, Result, ok, err, length,
  arith,
}
use mathlib.Core.List.{Permᴰ}
use mathlib.Core.List.Permᴰ
use midgard_rs.Common.Int.{pos, pos_part, rem_euclid, ◌+ℤ◌, ◌-ℤ◌}
use midgard_rs.Common.Word.{add_i64, sub_i64, wrap}
use midgard_rs.Common.Text.{Text, codes}
use midgard_rs.Chain.Rpc.{Reply, Envelope, no_reply, single, batch, call_batch, extract_result}
use midgard_rs.Chain.Rpc.Order.{Answered, call_batch-Answered}
use midgard_rs.Chain.Rpc.Replies.{reply_to, replies, call_batch-replies}
use midgard_rs.Chain.Client as Client
use midgard_rs.Chain.Client.{
  Node, Formats, Status, BlockResponse, BlockResults, ThorChain, BlockIterator, fetch_range,
  iterator, next_block, refill, fetch_chunks, fetch_batch, chunks_of, assemble_all, assemble,
  block_time_to_nano,
}
use midgard_rs.Chain.Client.Runs.{IsRun, fetch_range-IsRun}
use midgard_rs.Chain.Client.Iterator.{IsNext, iterator-IsAt, next_block-IsNext}
use midgard_rs.Chain.Client.Served.{IsServed, upto, block_of, fetch_range-served}
use midgard_rs.Chain.Client.Retries.{new-IsBatched, status-answer}

-- What a node sends.
pub data Wire : Type 0 where
  of_status : Status → Wire
  of_block : BlockResponse → Wire
  of_results : BlockResults → Wire

abbrev status_value : Wire → Result Text Status
status_value (of_status s) = ok s
status_value (of_block b) = err []
status_value (of_results r) = err []

abbrev block_value : Wire → Result Text BlockResponse
block_value (of_block b) = ok b
block_value (of_status s) = err []
block_value (of_results r) = err []

abbrev results_value : Wire → Result Text BlockResults
results_value (of_results r) = ok r
results_value (of_status s) = err []
results_value (of_block b) = err []

abbrev pub formats : Formats Wire
formats = record { status = status_value; block = block_value; results = results_value }

abbrev pub response : ℕ → BlockResponse
response h = record {
  height = h;
  unix_nanos = pos 5;
  hash = codes "AB";
  chain_id = codes "thorchain";
  txs = [];
}

abbrev pub results : ℕ → BlockResults
results h = record { height = h; finalize_block_events = []; txs_results = none }

abbrev pub block_wire : ℕ → Wire
block_wire h = of_block (response h)

abbrev pub results_wire : ℕ → Wire
results_wire h = of_results (results h)

abbrev pub node : Node Wire
node = record {
  block = λ z. single (reply_to 0 (block_wire (pos_part z)));
  block_results = λ z. single (reply_to 0 (results_wire (pos_part z)));
  blocks = λ z n. batch (replies 0 (upto block_wire (pos_part z) n));
  blocks_results = λ z n. batch (replies 0 (upto results_wire (pos_part z) n));
}

pub node-IsServed : (t : ℕ) → IsServed formats node t block_wire results_wire response results
node-IsServed t = record {
  reads_block = λ h. refl;
  reads_results = λ h. refl;
  block_height = λ h. refl;
  results_height = λ h. refl;
  times = λ h. (omega arith, omega arith);
  gives_block = λ h k. refl;
  gives_results = λ h k. refl;
  gives_blocks = λ h n k.
      (replies 0 (upto block_wire h n), refl, Permᴰ.refl (replies 0 (upto block_wire h n)));
  gives_blocks_results = λ h n k.
      (replies 0 (upto results_wire h n), refl, Permᴰ.refl (replies 0 (upto results_wire h n)));
}

abbrev pub client : Client.Client
client = record {
  rpc_client = record { url = codes "http://node" };
  batch_size = 4;
  parallelism = 2;
  max_status_retries = 3;
}

fetch_range-served_example :
    fetch_range formats client node (pos 7) 4 ≡ ok (upto (block_of response results) 7 4)
fetch_range-served_example =
    fetch_range-served formats node 20 block_wire results_wire response results (omega arith)
      (node-IsServed 20) client 7 4 (omega arith)

fetch_range-IsRun_example :
    (length (upto (block_of response results) 7 4) ≡ 4)
    × IsRun 7 (upto (block_of response results) 7 4)
fetch_range-IsRun_example =
    fetch_range-IsRun formats client node 7 4 (upto (block_of response results) 7 4) (omega arith) (
      fetch_range-served formats node 20 block_wire results_wire response results (omega arith)
        (node-IsServed 20) client 7 4 (omega arith))

abbrev taken : BlockIterator
taken = record { next = pos 10; through = pos 9; buffered = upto (block_of response results) 8 2 }

next_block-IsNext_example : IsNext 7 9 (some (block_of response results 7)) taken
unfolding next_block refill fetch_range fetch_chunks fetch_batch chunks_of call_batch extract_result
    assemble_all assemble block_time_to_nano rem_euclid add_i64 sub_i64 wrap ◌+ℤ◌ ◌-ℤ◌
next_block-IsNext_example =
    next_block-IsNext formats client node 7 9 (iterator (pos 7) (pos 9)) taken
      (some (block_of response results 7)) (omega arith) (omega arith)
      (iterator-IsAt 7 9 (omega arith)) refl

abbrev reversed : List (Envelope Wire)
reversed = reply_to 1 (block_wire 6) ∷ reply_to 0 (block_wire 5) ∷ []

call_batch-replies_example :
    call_batch block_value (codes "http://node") (codes "block") 2 (batch reversed)
    ≡ ok (response 5 ∷ response 6 ∷ [])
call_batch-replies_example =
    call_batch-replies block_value (codes "http://node") (codes "block")
      (block_wire 5 ∷ block_wire 6 ∷ []) (response 5 ∷ response 6 ∷ []) reversed
      (Permᴰ.swap refl refl) (refl, (refl, tt))

call_batch-Answered_example :
    (length (response 5 ∷ response 6 ∷ []) ≡ 2)
    × Answered block_value (codes "block") 0 (response 5 ∷ response 6 ∷ []) reversed
call_batch-Answered_example =
    call_batch-Answered block_value (codes "http://node") (codes "block") 2 reversed
      (response 5 ∷ response 6 ∷ [])
      (call_batch-replies block_value (codes "http://node") (codes "block")
        (block_wire 5 ∷ block_wire 6 ∷ []) (response 5 ∷ response 6 ∷ []) reversed
        (Permᴰ.swap refl refl) (refl, (refl, tt)))

-- A node that starts up: the second request for its status gets an answer.
abbrev pub starting : ℕ → ℕ → Reply Wire
starting t zero = no_reply
starting t (suc n) = single (reply_to 0 (of_status (record { latest_block_height = t })))

status-answer_example :
    Client.status formats client (starting 9) ≡ some (ok (record { latest_block_height = 9 }))
unfolding midgard_rs.Chain.Rpc.call midgard_rs.Chain.Rpc.extract_result
status-answer_example =
    status-answer formats client (starting 9) 1 (record { latest_block_height = 9 }) ((_, refl), tt)
      refl (omega arith)

abbrev settings : ThorChain
settings = record {
  tendermint_base = codes "http://node/";
  parallelism = 2;
  fetch_batch_size = 4;
  max_status_retries = 3;
}

new-IsBatched_example : (0 < 2) × (0 < 4) × (4 % 2 ≡ 0)
unfolding Client.new midgard_rs.Chain.Rpc.new
new-IsBatched_example = new-IsBatched true settings client refl
