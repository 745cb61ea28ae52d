-- ===== src/Chain/Client/Runs.antt =====
-- crates/midgard-chain/src/client.rs: a range comes back as a whole run of blocks.
use midgard_rs.Common.{
  ℕ, zero, suc, ◌+◌, ◌*◌, ◌/◌, ◌%◌, ◌<◌, ◌^◌, ◌==◌, ==_iff, ◌≡◌, refl, sym, ap, subst, ◌∙◌,
  Bool-cases, inl, inr, List, [], ◌∷◌, ◌++◌, Result, ok, err, map_err, >>=-eq-ok, ok-injective,
  length, length-append, arith, leb, ◌&&◌, and_right,
}
use native.Mathlib.Omega.{div_any}
use midgard_rs.Common.Int.{ℤ, pos, eqb_ℤ}
use midgard_rs.Common.Word.{wrap, wrap_id, add_i64, add_i64-pos}
use midgard_rs.Common.Text.{Text}
use midgard_rs.Chain.Types.{Block}
use midgard_rs.Chain.Rpc.{Reply, no_reply, single, batch, call, call_batch}
use midgard_rs.Chain.Rpc.Order.{call_batch-Answered}
use midgard_rs.Chain.Client.{
  Client, ChainError, Node, Formats, BlockResponse, BlockResults, block_time_to_nano, assemble,
  assemble_all, fetch_block, fetch_batch, fetch_chunks, chunks_of, fetch_range,
}

-- Blocks with consecutive heights, from one on.
abbrev pub IsRun : ℕ → List Block → Type 0
IsRun a [] = Unit
IsRun a (b ∷ bs) = (b.height ≡ pos a) × IsRun (a + 1) bs

pub append-IsRun :
    (a : ℕ) (bs cs : List Block) → IsRun a bs → IsRun (a + length bs) cs → IsRun a (bs ++ cs)
append-IsRun a [] cs h k = subst (λ n. IsRun n cs) (omega arith) k
append-IsRun a (b ∷ bs) cs (e, h) k =
    (e, append-IsRun (a + 1) bs cs h (subst (λ n. IsRun n cs) (omega arith) k))

pub wrap-pos : (n : ℕ) → n < 2 ^ 63 → wrap (pos n) ≡ pos n
wrap-pos n h = wrap_id (pos n) (h, omega arith)

length-call_batch :
    {Json T : Type 0} (from_value : Json → Result Text T) (url method : Text) (n : ℕ)
    (reply : Reply Json) (vs : List T)
    → call_batch from_value url method n reply ≡ ok vs
    → length vs ≡ n
unfolding call_batch
length-call_batch from_value url method zero reply vs h = sym (ap length (ok-injective h))
length-call_batch from_value url method (suc n) no_reply vs h = cc
length-call_batch from_value url method (suc n) (single e) vs h = cc
length-call_batch from_value url method (suc n) (batch es) vs h =
    (call_batch-Answered from_value url method (suc n) es vs h).0

map_err-eq-ok :
    {E F A : Type 0} (f : E → F) (r : Result E A) (v : A)
    → ◌≡◌ {A = Result F A} (map_err f r) (ok v)
    → r ≡ ok v
map_err-eq-ok f (err x) v h = cc
map_err-eq-ok f (ok w) v h = ap ok (ok-injective h)

pub assemble-height :
    (requested : ℤ) (b : BlockResponse) (r : BlockResults) (x : Block)
    → assemble requested b r ≡ ok x
    → x.height ≡ requested
unfolding assemble
assemble-height requested b r x h = elim (Bool-cases (eqb_ℤ (wrap (pos b.height)) requested)) [
  | inr e ↦ cc
  | inl e ↦ elim (Bool-cases (eqb_ℤ (wrap (pos r.height)) requested)) [
    | inr g ↦ cc
    | inl g ↦
        let (t, k, l) = >>=-eq-ok (block_time_to_nano requested b.unix_nanos) _ (rw (e, g) at h) in
        sym (ap (λ y. y.height) (ok-injective l))
  ]
]

assemble_all-IsRun :
    (a i : ℕ) (bs : List BlockResponse) (rs : List BlockResults) (xs : List Block)
    → a + i + length bs < 2 ^ 63
    → length rs ≡ length bs
    → assemble_all (pos a) i bs rs ≡ ok xs
    → (length xs ≡ length bs) × IsRun (a + i) xs
unfolding assemble_all
assemble_all-IsRun a i [] rs xs small len h =
    subst (λ ys. (length ys ≡ 0) × IsRun (a + i) ys) (ok-injective h) (refl, tt)
assemble_all-IsRun a i (b ∷ bs) [] xs small len h = absurd (omega (arith, len))
assemble_all-IsRun a i (b ∷ bs) (r ∷ rs) xs small len h =
    let (x, e, h1) = >>=-eq-ok (assemble (add_i64 (pos a) (pos i)) b r) _ h in
    let (ys, f, h2) = >>=-eq-ok (assemble_all (pos a) (i + 1) bs rs) _ h1 in
    let (l, run) = assemble_all-IsRun a (i + 1) bs rs ys (omega arith) (omega arith) f in
    subst (λ zs. (length zs ≡ suc (length bs)) × IsRun (a + i) zs) (ok-injective h2)
      (
        omega arith,
        (
          assemble-height _ b r x e ∙ add_i64-pos a i (omega arith),
          subst (λ n. IsRun n ys) (omega arith) run,
        ),
      )

module _ {Json : Type 0} (formats : Formats Json) (c : Client) (node : Node Json) where
  fetch_batch-IsRun :
      (a count : ℕ) (xs : List Block)
      → a + count < 2 ^ 63
      → fetch_batch formats c node (pos a) count ≡ ok xs
      → (length xs ≡ count) × IsRun a xs
  unfolding fetch_batch
  fetch_batch-IsRun a count xs small h =
      let (bs, e, h1) =
        >>=-eq-ok
          (map_err ChainError.rpc (call_batch formats.block _ _ count (node.blocks (pos a) count)))
          _ h in
      let (rs, f, h2) =
        >>=-eq-ok
          (map_err ChainError.rpc
            (call_batch formats.results _ _ count (node.blocks_results (pos a) count)))
          _ h1 in
      let lb =
        length-call_batch formats.block _ _ count (node.blocks (pos a) count) bs
          (map_err-eq-ok _ _ bs e) in
      let lr =
        length-call_batch formats.results _ _ count (node.blocks_results (pos a) count) rs
          (map_err-eq-ok _ _ rs f) in
      let (l, run) = assemble_all-IsRun a 0 bs rs xs (omega arith) (omega arith) h2 in
      (l ∙ lb, subst (λ n. IsRun n xs) (omega arith) run)

  pub fetch_block-height :
      (height : ℤ) (b : Block) → fetch_block formats c node height ≡ ok b → b.height ≡ height
  unfolding fetch_block
  fetch_block-height height b h =
      let (x, e, h1) =
        >>=-eq-ok (map_err ChainError.rpc (call formats.block _ _ (node.block height))) _ h in
      let (y, f, h2) =
        >>=-eq-ok (map_err ChainError.rpc (call formats.results _ _ (node.block_results height))) _
          h1 in
      assemble-height height x y b h2

  fetch_chunks-IsRun :
      (a n i per : ℕ) (xs : List Block)
      → a + (i + n) * per < 2 ^ 63
      → fetch_chunks formats c node (pos a) n i per ≡ ok xs
      → (length xs ≡ n * per) × IsRun (a + i * per) xs
  unfolding fetch_chunks
  fetch_chunks-IsRun a zero i per xs small h =
      subst (λ ys. (length ys ≡ 0 * per) × IsRun (a + i * per) ys) (ok-injective h)
        (omega arith, tt)
  fetch_chunks-IsRun a (suc n) i per xs small h =
      let here : add_i64 (pos a) (wrap (pos (i * per))) ≡ pos (a + i * per) =
        ap (add_i64 (pos a)) (wrap-pos (i * per) (omega arith))
        ∙ add_i64-pos a (i * per) (omega arith) in
      let (bs, e, h1) =
        >>=-eq-ok (fetch_batch formats c node (add_i64 (pos a) (wrap (pos (i * per)))) per) _ h in
      let (rest, f, h2) = >>=-eq-ok (fetch_chunks formats c node (pos a) n (i + 1) per) _ h1 in
      let (l, run) = fetch_batch-IsRun (a + i * per) per bs (omega arith) (rw here at e) in
      let (m, more) = fetch_chunks-IsRun a n (i + 1) per rest (omega arith) f in
      subst (λ ys. (length ys ≡ suc n * per) × IsRun (a + i * per) ys) (ok-injective h2)
        (
          omega (arith, length-append bs rest, l, m),
          append-IsRun (a + i * per) bs rest run
              (subst (λ k. IsRun k rest) (omega (arith, l)) more),
        )

  pub chunks-divide : (count : ℕ) → chunks_of c count * (count / chunks_of c count) ≡ count
  unfolding chunks_of
  chunks-divide count = elim (Bool-cases (leb 2 c.parallelism && count % c.parallelism == 0)) [
    | inl e ↦ rw e (
        omega (
          arith,
          div_any count c.parallelism,
          (==_iff (count % c.parallelism) 0).0 (and_right _ _ e),
        ))
    | inr e ↦ rw e (omega arith)
  ]

  -- Whatever the node replies, if `fetch_range` succeeds for a first height and a count that stay
  -- below 2^63, it returns exactly the count of blocks, with consecutive heights from the first on.
  pub fetch_range-IsRun :
      (a count : ℕ) (xs : List Block)
      → a + count < 2 ^ 63
      → fetch_range formats c node (pos a) count ≡ ok xs
      → (length xs ≡ count) × IsRun a xs
  unfolding fetch_range
  fetch_range-IsRun a zero xs small h =
      subst (λ ys. (length ys ≡ 0) × IsRun a ys) (ok-injective h) (refl, tt)
  fetch_range-IsRun a (suc zero) xs small h =
      let (b, e, h1) = >>=-eq-ok (fetch_block formats c node (pos a)) _ h in
      subst (λ ys. (length ys ≡ 1) × IsRun a ys) (ok-injective h1)
        (refl, (fetch_block-height (pos a) b e, tt))
  fetch_range-IsRun a (suc (suc n)) xs small h =
      let k = chunks_of c (suc (suc n)) in
      let per = suc (suc n) / k in
      let whole : k * per ≡ suc (suc n) = chunks-divide (suc (suc n)) in
      let (l, run) = fetch_chunks-IsRun a k 0 per xs (omega (arith, whole)) h in
      (l ∙ whole, subst (λ m. IsRun m xs) (omega arith) run)
