-- ===== src/Chain/Client/Served.antt =====
-- crates/midgard-chain/src/client.rs: what the client gets from a node that has the blocks.
use midgard_rs.Common.{
  ℕ, zero, suc, ◌+◌, ◌*◌, ◌/◌, ◌<◌, ◌≤◌, ◌^◌, ◌≡◌, refl, sym, ap, subst, ◌∙◌, List, [], ◌∷◌, ◌++◌,
  Result, ok, length, arith,
}
use mathlib.Core.List.{Permᴰ}
use midgard_rs.Common.Int.{pos}
use midgard_rs.Common.Word.{IsI64, wrap, wrap_id, add_i64, add_i64-pos}
use midgard_rs.Common.Text.{Text}
use midgard_rs.Common.Int.Order.{eqb_self}
use midgard_rs.Chain.Types.{Block}
use midgard_rs.Chain.Rpc.{Reply, single, batch, call, call_batch, extract_result}
use midgard_rs.Chain.Rpc.Replies.{reply_to, replies, Accepted, call_batch-replies}
use midgard_rs.Chain.Client.{
  Client, Node, Formats, BlockResponse, BlockResults, block_time_to_nano, assemble, assemble_all,
  fetch_block, fetch_batch, fetch_chunks, chunks_of, fetch_range,
}
use midgard_rs.Chain.Client.Runs.{wrap-pos, chunks-divide}

-- The values of a function at `n` numbers from one on.
abbrev pub upto : {A : Type 0} → (ℕ → A) → ℕ → ℕ → List A
upto f h zero = []
upto f h (suc n) = f h ∷ upto f (h + 1) n

upto-+ : {A : Type 0} (f : ℕ → A) (h m n : ℕ) → upto f h (m + n) ≡ upto f h m ++ upto f (h + m) n
upto-+ f h zero n =
    let sum : zero + n ≡ n = omega arith in
    let start : h ≡ h + zero = omega arith in ap (upto f h) sum ∙ ap (λ k. upto f k n) start
upto-+ f h (suc m) n =
    let sum : suc m + n ≡ suc (m + n) = omega arith in
    let start : h + 1 + m ≡ h + suc m = omega arith in
    ap (upto f h) sum
    ∙ ap (λ xs. f h ∷ xs) (upto-+ f (h + 1) m n ∙ ap (λ k. upto f (h + 1) m ++ upto f k n) start)

-- A node that has the blocks up to a height: it answers a call with the block, and a batch with the
-- blocks in some order.
pub record IsServed {Json : Type 0} (formats : Formats Json) (node : Node Json) (t : ℕ)
    (json_b json_r : ℕ → Json) (b : ℕ → BlockResponse) (r : ℕ → BlockResults) : Type 0 where
  pub reads_block : (h : ℕ) → formats.block (json_b h) ≡ ok (b h)
  pub reads_results : (h : ℕ) → formats.results (json_r h) ≡ ok (r h)
  pub block_height : (h : ℕ) → (b h).height ≡ h
  pub results_height : (h : ℕ) → (r h).height ≡ h
  pub times : (h : ℕ) → IsI64 (b h).unix_nanos
  pub gives_block : (h : ℕ) → h ≤ t → node.block (pos h) ≡ single (reply_to 0 (json_b h))
  pub gives_results : (h : ℕ) → h ≤ t → node.block_results (pos h) ≡ single (reply_to 0 (json_r h))
  pub gives_blocks :
      (h n : ℕ)
      → h + n ≤ t + 1
      → (es : _) × (node.blocks (pos h) n ≡ batch es) × Permᴰ es (replies 0 (upto json_b h n))
  pub gives_blocks_results :
      (h n : ℕ)
      → h + n ≤ t + 1
      → (es : _) × (node.blocks_results (pos h) n ≡ batch es)
        × Permᴰ es (replies 0 (upto json_r h n))

-- The block that the two responses make.
abbrev pub block_of : (ℕ → BlockResponse) → (ℕ → BlockResults) → ℕ → Block
block_of b r h = record {
  height = pos h;
  timestamp = (b h).unix_nanos;
  hash = (b h).hash;
  chain_id = (b h).chain_id;
  finalize_block_events = (r h).finalize_block_events;
  txs_results = (r h).txs_results;
  txs = (b h).txs;
}

length-upto : {A : Type 0} (f : ℕ → A) (h n : ℕ) → length (upto f h n) ≡ n
length-upto f h zero = refl
length-upto f h (suc n) = ap suc (length-upto f (h + 1) n)

Accepted-upto :
    {Json T : Type 0} (from_value : Json → Result Text T) (js : ℕ → Json) (vs : ℕ → T) (h n : ℕ)
    → ((k : ℕ) → from_value (js k) ≡ ok (vs k))
    → Accepted from_value (upto js h n) (upto vs h n)
Accepted-upto from_value js vs h zero k = tt
Accepted-upto from_value js vs h (suc n) k = (k h, Accepted-upto from_value js vs (h + 1) n k)

call_batch-upto :
    {Json T : Type 0} (from_value : Json → Result Text T) (js : ℕ → Json) (vs : ℕ → T) (h n : ℕ)
    (url method : Text) (reply : Reply Json)
    → ((k : ℕ) → from_value (js k) ≡ ok (vs k))
    → ((es : _) × (reply ≡ batch es) × Permᴰ es (replies 0 (upto js h n)))
    → call_batch from_value url method n reply ≡ ok (upto vs h n)
call_batch-upto from_value js vs h n url method reply k (es, e, p) =
    subst (λ m. call_batch from_value url method m reply ≡ ok (upto vs h n)) (length-upto js h n)
      (ap (call_batch from_value url method (length (upto js h n))) e
        ∙ call_batch-replies from_value url method (upto js h n) (upto vs h n) es p
            (Accepted-upto from_value js vs h n k))

module _ {Json : Type 0} (formats : Formats Json) (node : Node Json) (t : ℕ)
    (json_b json_r : ℕ → Json) (b : ℕ → BlockResponse) (r : ℕ → BlockResults)
    (small : t + 1 < 2 ^ 63) (served : IsServed formats node t json_b json_r b r) (c : Client) where
  assemble-served : (h : ℕ) → h ≤ t → assemble (pos h) (b h) (r h) ≡ ok (block_of b r h)
  unfolding assemble block_time_to_nano
  assemble-served h k =
      let eb : wrap (pos (b h).height) ≡ pos h =
        ap (λ n. wrap (pos n)) (served.block_height h) ∙ wrap-pos h (omega arith) in
      let er : wrap (pos (r h).height) ≡ pos h =
        ap (λ n. wrap (pos n)) (served.results_height h) ∙ wrap-pos h (omega arith) in
      rw
        (
          eb,
          er,
          eqb_self (pos h),
          wrap_id (b h).unix_nanos (served.times h),
          eqb_self (b h).unix_nanos,
        )
        refl

  assemble_all-served :
      (a i k n : ℕ)
      → a + i ≡ k
      → k + n ≤ t + 1
      → assemble_all (pos a) i (upto b k n) (upto r k n) ≡ ok (upto (block_of b r) k n)
  unfolding assemble_all
  assemble_all-served a i k zero e small_n = refl
  assemble_all-served a i k (suc n) e small_n =
      rw
        (
          add_i64-pos a i (omega arith),
          e,
          assemble-served k (omega arith),
          assemble_all-served a (i + 1) (k + 1) n (omega arith) (omega arith),
        )
        refl

  pub fetch_block-served :
      (h : ℕ) → h ≤ t → fetch_block formats c node (pos h) ≡ ok (block_of b r h)
  unfolding fetch_block call extract_result
  fetch_block-served h k =
      rw
        (
          served.gives_block h k,
          served.gives_results h k,
          served.reads_block h,
          served.reads_results h,
        )
        (assemble-served h k)

  fetch_batch-served :
      (h n : ℕ)
      → h + n ≤ t + 1
      → fetch_batch formats c node (pos h) n ≡ ok (upto (block_of b r) h n)
  unfolding fetch_batch
  fetch_batch-served h n k =
      rw
        (
          call_batch-upto formats.block json_b b h n _ _ _ served.reads_block
              (served.gives_blocks h n k),
          call_batch-upto formats.results json_r r h n _ _ _ served.reads_results
              (served.gives_blocks_results h n k),
        )
        (assemble_all-served h 0 h n (omega arith) k)

  fetch_chunks-served :
      (h n i per : ℕ)
      → h + (i + n) * per ≤ t + 1
      → fetch_chunks formats c node (pos h) n i per
        ≡ ok (upto (block_of b r) (h + i * per) (n * per))
  unfolding fetch_chunks
  fetch_chunks-served h zero i per k =
      let zero_blocks : 0 ≡ 0 * per = omega arith in
      ap (λ m. ok (upto (block_of b r) (h + i * per) m)) zero_blocks
  fetch_chunks-served h (suc n) i per k =
      let here : add_i64 (pos h) (wrap (pos (i * per))) ≡ pos (h + i * per) =
        ap (add_i64 (pos h)) (wrap-pos (i * per) (omega arith))
        ∙ add_i64-pos h (i * per) (omega arith) in
      let sum : per + n * per ≡ suc n * per = omega arith in
      let start : h + (i + 1) * per ≡ h + i * per + per = omega arith in
      let joined =
        ap (λ m. upto (block_of b r) (h + i * per) per ++ upto (block_of b r) m (n * per)) start
        ∙ sym (upto-+ (block_of b r) (h + i * per) per (n * per))
        ∙ ap (upto (block_of b r) (h + i * per)) sum in
      rw
        (
          here,
          fetch_batch-served (h + i * per) per (omega arith),
          fetch_chunks-served h n (i + 1) per (omega arith),
        )
        (ap ok joined)

  -- From a node that has the blocks up to a height and answers each batch in some order,
  -- `fetch_range` gets the blocks of the range in order, each made of the two responses for its
  -- height, however it splits the range.
  pub fetch_range-served :
      (h count : ℕ)
      → h + count ≤ t + 1
      → fetch_range formats c node (pos h) count ≡ ok (upto (block_of b r) h count)
  unfolding fetch_range
  fetch_range-served h zero k = refl
  fetch_range-served h (suc zero) k = rw (fetch_block-served h (omega arith)) refl
  fetch_range-served h (suc (suc n)) k =
      let m = chunks_of c (suc (suc n)) in
      let per = suc (suc n) / m in
      let whole : m * per ≡ suc (suc n) = chunks-divide formats c node (suc (suc n)) in
      let start : h + 0 * per ≡ h = omega arith in
      fetch_chunks-served h m 0 per (omega (arith, whole))
      ∙ ap ok (ap (λ x. upto (block_of b r) x (m * per)) start ∙ ap (upto (block_of b r) h) whole)
