-- ===== src/Chain/Client/Ahead.antt =====
-- crates/midgard-chain/src/client.rs: the iterator over the blocks of a node that has them.
use Prim.Native.Nat.{min}
use midgard_rs.Common.{
  ℕ, zero, suc, ◌+◌, ◌-◌, ◌<◌, ◌≤◌, ◌^◌, ◌≡◌, refl, ap, ◌∙◌, false, none, some, [], ok, arith,
}
use midgard_rs.Common.Int.{pos, ltb_ℤ}
use midgard_rs.Common.Word.{wrap, add_i64, add_i64-pos}
use midgard_rs.Common.Int.Order.{ltb-pos_lt, ltb-pos_ge}
use midgard_rs.Chain.Types.{Block}
use midgard_rs.Chain.Client.{
  Client, Node, Formats, BlockResponse, BlockResults, BlockIterator, iterator, take_first, refill,
  next_block,
}
use midgard_rs.Chain.Client.Runs.{wrap-pos}
use midgard_rs.Chain.Client.Iterator.{remaining}
use midgard_rs.Chain.Client.Served.{upto, IsServed, block_of, fetch_range-served}

-- The iterator whose buffer holds the next `m` blocks of a function.
abbrev pub ahead : (ℕ → Block) → ℕ → ℕ → ℕ → BlockIterator
ahead f h m t = record { next = pos (h + m); through = pos t; buffered = upto f h m }

pub iterator-ahead : (f : ℕ → Block) (h t : ℕ) → iterator (pos h) (pos t) ≡ ahead f h 0 t
iterator-ahead f h t =
    let same : h ≡ h + 0 = omega arith in
    ap (λ n. record { next = pos n; through = pos t; buffered = [] }) same

take_first-ahead :
    (f : ℕ → Block) (h m t : ℕ)
    → take_first (ahead f h (suc m) t) ≡ (some (f h), ahead f (h + 1) m t)
take_first-ahead f h m t =
    let same : h + suc m ≡ h + 1 + m = omega arith in
    ap (λ n. (some (f h), record { next = pos n; through = pos t; buffered = upto f (h + 1) m }))
      same

min-suc : (n size : ℕ) → 0 < size → (m : ℕ) × (min (n + 1) size ≡ suc m) × (m ≤ n)
min-suc n size h = (min (n + 1) size - 1, omega arith, omega arith)

module _ {Json : Type 0} (formats : Formats Json) (node : Node Json) (t : ℕ)
    (json_b json_r : ℕ → Json) (b : ℕ → BlockResponse) (r : ℕ → BlockResults)
    (small : t + 1 < 2 ^ 63) (served : IsServed formats node t json_b json_r b r) (c : Client)
    (batch : 0 < c.batch_size) where
  refill-ahead :
      (h : ℕ)
      → h ≤ t
      → (m : ℕ) × (h + suc m ≤ t + 1)
        × (refill formats c node (ahead (block_of b r) h 0 t)
            ≡ ok (ahead (block_of b r) h (suc m) t))
  unfolding refill
  refill-ahead h k =
      let n : h + 0 ≡ h = omega arith in
      let (m, whole, within) = min-suc (t - h) c.batch_size batch in
      let got =
        fetch_range-served formats node t json_b json_r b r small served c h (suc m)
          (omega (arith, within)) in
      let moved : add_i64 (pos h) (wrap (pos (suc m))) ≡ pos (h + suc m) =
        ap (add_i64 (pos h)) (wrap-pos (suc m) (omega (arith, within)))
        ∙ add_i64-pos h (suc m) (omega (arith, within)) in
      (m, omega (arith, within), rw (n, remaining h t k small, whole, got, moved) refl)

  pub next_block-ahead :
      (h m : ℕ)
      → h ≤ t
      → h + m ≤ t + 1
      → (k : ℕ) × (h + 1 + k ≤ t + 1)
        × (next_block formats c node (ahead (block_of b r) h m t)
            ≡ ok (some (block_of b r h), ahead (block_of b r) (h + 1) k t))
  unfolding next_block
  next_block-ahead h (suc m) k inside =
      (m, omega arith, ap ok (take_first-ahead (block_of b r) h m t))
  next_block-ahead h zero k inside =
      let (m, bound, f) = refill-ahead h k in
      let not_past : ltb_ℤ (pos t) (pos (h + 0)) ≡ false = ltb-pos_ge t (h + 0) (omega arith) in
      (m, omega arith, rw (not_past, f) (ap ok (take_first-ahead (block_of b r) h m t)))

  pub next_block-past :
      (h m : ℕ)
      → h ≡ t + 1
      → h + m ≤ t + 1
      → next_block formats c node (ahead (block_of b r) h m t)
        ≡ ok (none, ahead (block_of b r) h m t)
  unfolding next_block
  next_block-past h (suc m) e inside = absurd (omega arith)
  next_block-past h zero e inside = rw (ltb-pos_lt t (h + 0) (omega arith)) refl
