-- ===== src/Chain/Client/Retries.antt =====
-- crates/midgard-chain/src/client.rs: the attempts of `status`, and what a client is made from.
use Prim.Native.Nat.{max}
use midgard_rs.Common.{
  ℕ, zero, suc, ◌+◌, ◌%◌, ◌<◌, ◌==◌, ◌≡◌, refl, sym, ap, ◌∙◌, Bool, false, ◌||◌, Bool-cases, inl,
  inr, Option, none, some, Result, ok, err, map_err, >>=-eq-ok, ok-injective, arith, ==_iff,
}
use midgard_rs.Common.Text.{codes}
use midgard_rs.Chain.Rpc as Rpc
use midgard_rs.Chain.Rpc.{RpcError, Reply, call}
use midgard_rs.Chain.Client.{Client, ThorChain, ChainError, Formats, Status, new, attempts, status}

-- A client that `new` makes has a parallelism and a batch size of at least 1, and the first divides
-- the second.
pub new-IsBatched :
    (is_built : Bool) (cfg : ThorChain) (c : Client)
    → new is_built cfg ≡ ok c
    → (0 < c.parallelism) × (0 < c.batch_size) × (c.batch_size % c.parallelism ≡ 0)
unfolding new
new-IsBatched is_built cfg c h =
    elim (Bool-cases (cfg.parallelism == 0 || cfg.fetch_batch_size == 0)) [
      | inl e ↦ cc
      | inr e ↦ elim (Bool-cases (cfg.fetch_batch_size % cfg.parallelism == 0)) [
        | inr f ↦ cc
        | inl f ↦
            let (r, g, k) =
              >>=-eq-ok (map_err ChainError.rpc (Rpc.new is_built cfg.tendermint_base)) _
                (rw (e, f) at h) in
            let p : cfg.parallelism ≡ c.parallelism = ap (λ x. x.parallelism) (ok-injective k) in
            let b : cfg.fetch_batch_size ≡ c.batch_size = ap (λ x. x.batch_size) (ok-injective k) in
            rw (sym p, sym b)
              (
                positive_left _ _ e,
                positive_right _ _ e,
                (==_iff (cfg.fetch_batch_size % cfg.parallelism) 0).0 f,
              )
      ]
    ]
  where
    positive_left : (m n : ℕ) → (m == 0 || n == 0) ≡ false → 0 < m
    positive_left m n z = ground arith

    positive_right : (m n : ℕ) → (m == 0 || n == 0) ≡ false → 0 < n
    positive_right m n z = ground arith

module _ {Json : Type 0} (formats : Formats Json) (c : Client) (replies : ℕ → Reply Json) where
  -- The outcome of an attempt.
  abbrev pub attempt : ℕ → Result RpcError Status
  attempt i = call formats.status c.rpc_client.url (codes "status") (replies i)

  abbrev pub AllFail : ℕ → ℕ → Type 0
  AllFail zero i = Unit
  AllFail (suc n) i = ((e : RpcError) × (attempt i ≡ err e)) × AllFail n (i + 1)

  attempts-answer :
      (k n i : ℕ) (s : Status) (last : Option RpcError)
      → AllFail k i
      → attempt (i + k) ≡ ok s
      → k < n
      → attempts formats c replies n i last ≡ some (ok s)
  attempts-answer k zero i s last h e small = absurd (omega arith)
  attempts-answer zero (suc n) i s last h e small =
      let same : i ≡ i + 0 = omega arith in rw (attempts, ap attempt same ∙ e) refl
  attempts-answer (suc k) (suc n) i s last ((x, f), h) e small =
      rw (attempts, f)
        (attempts-answer k n (i + 1) s (some x) h (ap attempt (omega arith) ∙ e) (omega arith))

  -- If the first k attempts fail and the next one is answered, and k is less than the number of
  -- attempts, which is at least 1, `status` returns that answer.
  pub status-answer :
      (k : ℕ) (s : Status)
      → AllFail k 0
      → attempt k ≡ ok s
      → k < max c.max_status_retries 1
      → status formats c replies ≡ some (ok s)
  unfolding status
  status-answer k s h e small =
      attempts-answer k (max c.max_status_retries 1) 0 s none h (ap attempt (omega arith) ∙ e) small
