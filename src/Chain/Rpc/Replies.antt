-- ===== src/Chain/Rpc/Replies.antt =====
-- crates/midgard-chain/src/rpc.rs: a batch is answered whatever the order of its responses.
use midgard_rs.Common.{
  ℕ, suc, ◌+◌, ◌<◌, ◌≤◌, ◌==◌, ==_iff, ◌≡◌, ◌≢◌, refl, sym, ap, ◌⊎◌, ◌∙◌, true, Bool-cases, inl,
  inr, Option, none, some, List, [], ◌∷◌, Result, ok, err, ok-injective, length, arith,
}
use mathlib.Core.List.{Permᴰ, Memᴰ}
use mathlib.Core.List.Permᴰ
use mathlib.Core.Bool.{true≢false}
use midgard_rs.Common.Int.{ℤ, pos, eqb_ℤ, parts_of_eq}
use midgard_rs.Common.Text.{Text, codes}
use midgard_rs.Common.Int.Order.{eqb_self, eqb-eq, pos-ne}
use midgard_rs.Chain.Rpc.{
  malformed, Envelope, batch, find_id, remove_id, collect_ids, extract_result, take_results,
  call_batch,
}
use midgard_rs.Chain.Rpc.Order.{find-remove, some_injective}

-- The responses to the calls, in the order of the calls.
abbrev pub reply_to : {Json : Type 0} → ℕ → Json → Envelope Json
reply_to i r = record { id = some (pos i); error = none; result = some r }

abbrev pub replies : {Json : Type 0} → ℕ → List Json → List (Envelope Json)
replies i [] = []
replies i (r ∷ rs) = reply_to i r ∷ replies (i + 1) rs

abbrev pub Accepted : {Json T : Type 0} → (Json → Result Text T) → List Json → List T → Type 0
Accepted from_value [] [] = Unit
Accepted from_value (r ∷ rs) (v ∷ vs) = (from_value r ≡ ok v) × Accepted from_value rs vs
Accepted from_value [] (v ∷ vs) = ⊥
Accepted from_value (r ∷ rs) [] = ⊥

perm-Memᴰ : {A : Type 0} {a : A} {xs ys : List A} → Permᴰ xs ys → Memᴰ a xs → Memᴰ a ys
perm-Memᴰ Permᴰ.nil h = h
perm-Memᴰ (Permᴰ.cons e p) (Memᴰ.head q) = Memᴰ.head (q ∙ e)
perm-Memᴰ (Permᴰ.cons e p) (Memᴰ.tail h) = Memᴰ.tail (perm-Memᴰ p h)
perm-Memᴰ (Permᴰ.swap e f) (Memᴰ.head q) = Memᴰ.tail (Memᴰ.head (q ∙ e))
perm-Memᴰ (Permᴰ.swap e f) (Memᴰ.tail (Memᴰ.head q)) = Memᴰ.head (q ∙ f)
perm-Memᴰ (Permᴰ.swap e f) (Memᴰ.tail (Memᴰ.tail h)) = Memᴰ.tail (Memᴰ.tail h)
perm-Memᴰ (Permᴰ.trans p q) h = perm-Memᴰ q (perm-Memᴰ p h)

perm-length : {A : Type 0} {xs ys : List A} → Permᴰ xs ys → length xs ≡ length ys
perm-length Permᴰ.nil = refl
perm-length (Permᴰ.cons e p) = ap suc (perm-length p)
perm-length (Permᴰ.swap e f) = refl
perm-length (Permᴰ.trans p q) = perm-length p ∙ perm-length q

-- `r` holds as many replies as there are results, ids from `i` on.
abbrev Held : {Json : Type 0} → ℕ → List Json → List (ℤ × Envelope Json) → Type 0
Held i [] m = Unit
Held i (r ∷ rs) m = (find_id (pos i) m ≡ some (reply_to i r)) × Held (i + 1) rs m

Held-remove :
    {Json : Type 0} (i j : ℕ) (rs : List Json) (m : List (ℤ × Envelope Json))
    → i < j
    → Held j rs m
    → Held j rs (remove_id (pos i) m)
Held-remove i j [] m h k = tt
Held-remove i j (r ∷ rs) m h (f, k) =
    (find-remove (pos i) (pos j) m (pos-ne i j h) ∙ f, Held-remove i (j + 1) rs m (omega arith) k)

take_results-Held :
    {Json T : Type 0} (from_value : Json → Result Text T) (method : Text) (i : ℕ) (rs : List Json)
    (vs : List T) (m : List (ℤ × Envelope Json))
    → Accepted from_value rs vs
    → Held i rs m
    → take_results from_value method (length rs) i m ≡ ok vs
unfolding extract_result
take_results-Held from_value method i [] [] m a k = refl
take_results-Held from_value method i (r ∷ rs) (v ∷ vs) m (a, b) (f, k) =
    rw
      (
        f,
        a,
        take_results-Held from_value method (i + 1) rs vs (remove_id (pos i) m) b
            (Held-remove i (i + 1) rs m (omega arith) k),
      )
      refl
take_results-Held from_value method i [] (v ∷ vs) m a k = elim a [ ]
take_results-Held from_value method i (r ∷ rs) [] m a k = elim a [ ]

collect_ids-cons :
    {Json : Type 0} (method : Text) (e : Envelope Json) (es : List (Envelope Json))
    (m r : List (ℤ × Envelope Json)) (i : ℤ)
    → e.id ≡ some i
    → collect_ids method es ((i, e) ∷ m) ≡ ok r
    → collect_ids method (e ∷ es) m ≡ ok r
collect_ids-cons method e es m r i a k = rw a k

collect_ids-total :
    {Json : Type 0} (method : Text) (es : List (Envelope Json)) (m : List (ℤ × Envelope Json))
    → ((e : Envelope Json) → Memᴰ e es → (i : ℕ) × (e.id ≡ some (pos i)))
    → (r : List (ℤ × Envelope Json)) × (collect_ids method es m ≡ ok r)
collect_ids-total method [] m h = (m, refl)
collect_ids-total method (e ∷ es) m h =
    let (i, a) = h e (Memᴰ.head refl) in
    let (r, k) = collect_ids-total method es ((pos i, e) ∷ m) (λ x mem. h x (Memᴰ.tail mem)) in
    (r, collect_ids-cons method e es m r (pos i) a k)

collect_ids-find :
    {Json : Type 0} (method : Text) (es : List (Envelope Json)) (m r : List (ℤ × Envelope Json))
    (i : ℤ) (e : Envelope Json)
    → collect_ids method es m ≡ ok r
    → ((x : Envelope Json) → Memᴰ x es → x.id ≡ some i → x ≡ e)
    → ((Memᴰ e es × (e.id ≡ some i)) ⊎ (find_id i m ≡ some e))
    → find_id i r ≡ some e
collect_ids-find method [] m r i e h same (inl (mem, a)) = elim mem [ ]
collect_ids-find method [] m r i e h same (inr f) = sym (ap (find_id i) (ok-injective h)) ∙ f
collect_ids-find {Json} method (x ∷ es) m r i e h same held =
    by_id x.id refl
      (λ j k. collect_ids-find method es ((j, x) ∷ m) r i e k (λ y mem. same y (Memᴰ.tail mem))) h
  where
    put :
        (j : ℤ)
        → x.id ≡ some j
        → ((Memᴰ e (x ∷ es) × (e.id ≡ some i)) ⊎ (find_id i m ≡ some e))
        → ((Memᴰ e es × (e.id ≡ some i)) ⊎ (find_id i ((j, x) ∷ m) ≡ some e))
    put j a now = elim (Bool-cases (eqb_ℤ j i)) [
      | inl t ↦ inr (rw t (ap some (same x (Memᴰ.head refl) (a ∙ ap some (eqb-eq j i t)))))
      | inr t ↦ elim now [
        | inl (Memᴰ.tail mem, b) ↦ inl (mem, b)
        | inl (Memᴰ.head q, b) ↦
            let equal : j ≡ i = some_injective (sym a ∙ ap (λ y. y.id) (sym q) ∙ b) in
            absurd (true≢false (sym (eqb_self i) ∙ ap (λ k. eqb_ℤ k i) (sym equal) ∙ t))
        | inr f ↦ inr (rw t f)
      ]
    ]

    by_id :
        (o : Option ℤ)
        → x.id ≡ o
        → ((j : ℤ)
            → collect_ids method es ((j, x) ∷ m) ≡ ok r
            → ((Memᴰ e es × (e.id ≡ some i)) ⊎ (find_id i ((j, x) ∷ m) ≡ some e))
            → find_id i r ≡ some e)
        → (elim o [
          | none ↦ err (malformed method (codes "response has no usable id"))
          | some j ↦ collect_ids method es ((j, x) ∷ m)
        ])
          ≡ ok r
        → find_id i r ≡ some e
    by_id none a later k = cc
    by_id (some j) a later k = later j k (put j a held)

-- The ids of the replies are different.
replies-id :
    {Json : Type 0} (i : ℕ) (rs : List Json) {x : Envelope Json}
    → Memᴰ x (replies i rs)
    → (k : ℕ) × (i ≤ k) × (x.id ≡ some (pos k))
replies-id i [] mem = elim mem [ ]
replies-id i (r ∷ rs) (Memᴰ.head q) = (i, omega arith, ap (λ y. y.id) q)
replies-id i (r ∷ rs) (Memᴰ.tail mem) =
    let (k, h, a) = replies-id (i + 1) rs mem in (k, omega arith, a)

later_ne : (i k : ℕ) → i + 1 ≤ k → pos i ≢ pos k
later_ne i k h e = omega (arith, (parts_of_eq e).0)

replies_differ :
    {Json : Type 0} (i : ℕ) (rs : List Json) (x y : Envelope Json)
    → Memᴰ x (replies i rs)
    → Memᴰ y (replies i rs)
    → x.id ≡ y.id
    → x ≡ y
replies_differ i [] x y hx hy e = elim hx [ ]
replies_differ i (r ∷ rs) x y (Memᴰ.head p) (Memᴰ.head q) e = p ∙ sym q
replies_differ i (r ∷ rs) x y (Memᴰ.tail hx) (Memᴰ.tail hy) e =
    replies_differ (i + 1) rs x y hx hy e
replies_differ i (r ∷ rs) x y (Memᴰ.head p) (Memᴰ.tail hy) e =
    let (k, h, a) = replies-id (i + 1) rs hy in
    absurd (later_ne i k h (some_injective (sym (ap (λ z. z.id) p) ∙ e ∙ a)))
replies_differ i (r ∷ rs) x y (Memᴰ.tail hx) (Memᴰ.head q) e =
    let (k, h, a) = replies-id (i + 1) rs hx in
    absurd (later_ne i k h (some_injective (sym (ap (λ z. z.id) q) ∙ sym e ∙ a)))

Held-replies :
    {Json : Type 0} (i : ℕ) (rs : List Json) (m : List (ℤ × Envelope Json))
    → ((x : Envelope Json) (k : ℕ)
        → Memᴰ x (replies i rs)
        → x.id ≡ some (pos k)
        → find_id (pos k) m ≡ some x)
    → Held i rs m
Held-replies i [] m h = tt
Held-replies i (r ∷ rs) m h = (
  h (reply_to i r) i (Memᴰ.head refl) refl,
  Held-replies (i + 1) rs m (λ x k mem a. h x k (Memᴰ.tail mem) a),
)

length-replies : {Json : Type 0} (i : ℕ) (rs : List Json) → length (replies i rs) ≡ length rs
length-replies i [] = refl
length-replies i (r ∷ rs) = ap suc (length-replies (i + 1) rs)

-- If the responses to a batch are those to its calls in any order, and the deserializer takes each
-- result, `call_batch` returns the results in the order of the calls.
pub call_batch-replies :
    {Json T : Type 0} (from_value : Json → Result Text T) (url method : Text) (rs : List Json)
    (vs : List T) (es : List (Envelope Json))
    → Permᴰ es (replies 0 rs)
    → Accepted from_value rs vs
    → call_batch from_value url method (length rs) (batch es) ≡ ok vs
unfolding call_batch
call_batch-replies from_value url method [] [] es p a = refl
call_batch-replies from_value url method [] (v ∷ vs) es p a = elim a [ ]
call_batch-replies {Json} from_value url method (r ∷ rs) vs es p a =
    let back : (x : Envelope Json) → Memᴰ x es → Memᴰ x (replies 0 (r ∷ rs)) =
      λ x mem. perm-Memᴰ p mem in
    let (m, c) =
      collect_ids-total method es []
        (λ e mem. let (k, h, b) = replies-id 0 (r ∷ rs) (back e mem) in (k, b)) in
    let held = Held-replies 0 (r ∷ rs) m (λ x k mem b.
      collect_ids-find method es [] m (pos k) x c
        (λ y mem2 b2. replies_differ 0 (r ∷ rs) y x (back y mem2) mem (b2 ∙ sym b))
        (inl (perm-Memᴰ (Permᴰ.symm p) mem, b))) in
    let len : (length es == length (r ∷ rs)) ≡ true =
      (==_iff (length es) (length (r ∷ rs))).1 (perm-length p ∙ length-replies 0 (r ∷ rs)) in
    rw (len, c, take_results-Held from_value method 0 (r ∷ rs) vs m a held) refl
