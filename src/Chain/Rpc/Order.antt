-- ===== src/Chain/Rpc/Order.antt =====
-- crates/midgard-chain/src/rpc.rs: the answers of a batch are in the order of the calls.
use midgard_rs.Common.{
  ℕ, zero, suc, ◌+◌, ◌<◌, ◌==◌, ◌≡◌, refl, sym, ap, subst, ◌⊎◌, ◌∙◌, false, Bool-cases, inl, inr,
  Option, none, some, List, [], ◌∷◌, Result, ok, err, ok_or, >>=-eq-ok, ok-injective, length, arith,
}
use mathlib.Core.List.{Memᴰ}
use midgard_rs.Common.Int.{ℤ, pos, eqb_ℤ}
use midgard_rs.Common.Text.{Text, codes}
use midgard_rs.Common.Int.Order.{eqb-eq, eqb-ne, pos-ne}
use midgard_rs.Chain.Rpc.{
  malformed, Envelope, batch, find_id, remove_id, collect_ids, extract_result, take_results,
  call_batch,
}

pub find-remove :
    {A : Type 0} (i j : ℤ) (m : List (ℤ × A))
    → eqb_ℤ i j ≡ false
    → find_id j (remove_id i m) ≡ find_id j m
find-remove i j [] h = refl
find-remove i j ((k, e) ∷ m) h = elim (Bool-cases (eqb_ℤ k i)) [
  | inl a ↦ rw (a, eqb-ne k i j a h) (find-remove i j m h)
  | inr a ↦ rw (a, find-remove i j m h) refl
]

module _ {Json T : Type 0} (from_value : Json → Result Text T) where
  -- The values are the results of entries of the table, from an id on.
  abbrev Found : Text → ℕ → List T → List (ℤ × Envelope Json) → Type 0
  Found method i [] m = Unit
  Found method i (v ∷ vs) m =
      (e : Envelope Json) × (find_id (pos i) m ≡ some e)
      × (extract_result from_value method e ≡ ok v)
      × Found method (i + 1) vs m

  Found-remove :
      (method : Text) (i j : ℕ) (vs : List T) (m : List (ℤ × Envelope Json))
      → i < j
      → Found method j vs (remove_id (pos i) m)
      → Found method j vs m
  Found-remove method i j [] m h k = tt
  Found-remove method i j (v ∷ vs) m h (e, f, x, k) = (
    e,
    sym (find-remove (pos i) (pos j) m (pos-ne i j h)) ∙ f,
    x,
    Found-remove method i (j + 1) vs m (omega arith) k,
  )

  ok_or-eq-ok :
      {A E : Type 0} (o : Option A) (x : E) (v : A)
      → ◌≡◌ {A = Result E A} (ok_or o x) (ok v)
      → o ≡ some v
  ok_or-eq-ok none x v h = cc
  ok_or-eq-ok (some w) x v h = cc

  take_results-Found :
      (method : Text) (n i : ℕ) (m : List (ℤ × Envelope Json)) (vs : List T)
      → take_results from_value method n i m ≡ ok vs
      → (length vs ≡ n) × Found method i vs m
  take_results-Found method zero i m vs h =
      subst (λ xs. (length xs ≡ 0) × Found method i xs m) (ok-injective h) (refl, tt)
  take_results-Found method (suc n) i m vs h =
      let (e, f, h1) = >>=-eq-ok (ok_or (find_id (pos i) m) _) _ h in
      let (v, x, h2) = >>=-eq-ok (extract_result from_value method e) _ h1 in
      let (ws, t, h3) =
        >>=-eq-ok (take_results from_value method n (i + 1) (remove_id (pos i) m)) _ h2 in
      let (len, found) = take_results-Found method n (i + 1) (remove_id (pos i) m) ws t in
      subst (λ xs. (length xs ≡ suc n) × Found method i xs m) (ok-injective h3)
        (
          omega (arith, len),
          (
            e,
            ok_or-eq-ok (find_id (pos i) m) _ e f,
            x,
            Found-remove method i (i + 1) ws m (omega arith) found,
          ),
        )

-- What the table holds comes from the responses.
pub some_injective : {A : Type 0} {x y : A} → some x ≡ some y → x ≡ y
some_injective h = cc

collect_ids-Memᴰ :
    {Json : Type 0} (method : Text) (es : List (Envelope Json)) (m r : List (ℤ × Envelope Json))
    (i : ℤ) (e : Envelope Json)
    → collect_ids method es m ≡ ok r
    → find_id i r ≡ some e
    → ((Memᴰ e es × (e.id ≡ some i)) ⊎ (find_id i m ≡ some e))
collect_ids-Memᴰ method [] m r i e h f = inr (ap (find_id i) (ok-injective h) ∙ f)
collect_ids-Memᴰ {Json} method (x ∷ es) m r i e h f =
    by_id x.id refl (λ j k. collect_ids-Memᴰ method es ((j, x) ∷ m) r i e k f) h
  where
    Outcome : Type 0
    Outcome = (Memᴰ e (x ∷ es) × (e.id ≡ some i)) ⊎ (find_id i m ≡ some e)

    by_id :
        (o : Option ℤ)
        → x.id ≡ o
        → ((j : ℤ)
            → collect_ids method es ((j, x) ∷ m) ≡ ok r
            → ((Memᴰ e es × (e.id ≡ some i)) ⊎ (find_id i ((j, x) ∷ m) ≡ some e)))
        → (elim o [
          | none ↦ err (malformed method (codes "response has no usable id"))
          | some j ↦ collect_ids method es ((j, x) ∷ m)
        ])
          ≡ ok r
        → (Memᴰ e (x ∷ es) × (e.id ≡ some i)) ⊎ (find_id i m ≡ some e)
    by_id none a later k = cc
    by_id (some j) a later k = elim (later j k) [
      | inl (mem, b) ↦ inl (Memᴰ.tail mem, b)
      | inr g ↦ elim (Bool-cases (eqb_ℤ j i)) [
        | inl t ↦
            let same : x ≡ e = some_injective (rw t at g) in
            inl (Memᴰ.head (sym same), ap (λ y. y.id) (sym same) ∙ a ∙ ap some (eqb-eq j i t))
        | inr t ↦ inr (rw t at g)
      ]
    ]

-- Each value is the result of a response with the next id.
abbrev pub Answered :
    {Json T : Type 0} → (Json → Result Text T) → Text → ℕ → List T → List (Envelope Json) → Type 0
Answered from_value method i [] es = Unit
Answered {Json} from_value method i (v ∷ vs) es =
    (e : Envelope Json) × Memᴰ e es
    × (e.id ≡ some (pos i))
    × (extract_result from_value method e ≡ ok v)
    × Answered from_value method (i + 1) vs es

Found-Answered :
    {Json T : Type 0} (from_value : Json → Result Text T) (method : Text) (i : ℕ) (vs : List T)
    (es : List (Envelope Json)) (m : List (ℤ × Envelope Json))
    → ((j : ℤ) (e : Envelope Json) → find_id j m ≡ some e → Memᴰ e es × (e.id ≡ some j))
    → Found from_value method i vs m
    → Answered from_value method i vs es
Found-Answered from_value method i [] es m from f = tt
Found-Answered from_value method i (v ∷ vs) es m from (e, f, x, k) =
    let (mem, a) = from (pos i) e f in
    (e, mem, a, x, Found-Answered from_value method (i + 1) vs es m from k)

-- If `call_batch` succeeds on some responses, it returns one value for each call, and the value of
-- the i-th call is what `extract_result` makes of a response with the id i.
pub call_batch-Answered :
    {Json T : Type 0} (from_value : Json → Result Text T) (url method : Text) (n : ℕ)
    (es : List (Envelope Json)) (vs : List T)
    → call_batch from_value url method n (batch es) ≡ ok vs
    → (length vs ≡ n) × Answered from_value method 0 vs es
unfolding call_batch
call_batch-Answered from_value url method zero es vs h =
    subst (λ xs. (length xs ≡ 0) × Answered from_value method 0 xs es) (ok-injective h) (refl, tt)
call_batch-Answered from_value url method (suc n) es vs h = elim (Bool-cases (length es == suc n)) [
  | inl t ↦
      let (m, c, k) = >>=-eq-ok (collect_ids method es []) _ (rw t at h) in
      let (len, found) = take_results-Found from_value method (suc n) 0 m vs k in
      (
        len,
        Found-Answered from_value method 0 vs es m
            (λ j e f. elim (collect_ids-Memᴰ method es [] m j e c f) [ inl r ↦ r | inr g ↦ cc ])
            found,
      )
  | inr t ↦ cc
]
