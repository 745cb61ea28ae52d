-- ===== src/Chain/Client/Iterator.antt =====
-- crates/midgard-chain/src/client.rs: the iterator walks its range one height after the other.
use Prim.Native.Nat.{min}
use midgard_rs.Common.{
  ℕ, suc, ◌+◌, ◌-◌, ◌<◌, ◌≤◌, ◌^◌, ◌≡◌, refl, sym, ap, subst, ◌∙◌, Bool-cases, inl, inr, ◌⊎◌,
  Option, none, some, List, [], ◌∷◌, ok, >>=-eq-ok, ok-injective, length, arith,
}
use midgard_rs.Common.Int.{pos, ltb_ℤ, rem_euclid}
use midgard_rs.Common.Word.{wrap, add_i64, add_i64-pos, sub_i64, sub_i64-pos}
use midgard_rs.Common.Int.Order.{ltb-pos, ltb-pos_false}
use midgard_rs.Chain.Types.{Block}
use midgard_rs.Chain.Client.{
  Client, Node, Formats, fetch_range, BlockIterator, iterator, take_first, refill, next_block,
}
use midgard_rs.Chain.Client.Runs.{IsRun, wrap-pos, fetch_range-IsRun}

-- The next block of the iterator is of a height, and the buffer holds the blocks before `next`.
pub record IsAt (h t : ℕ) (it : BlockIterator) : Type 0 where
  pub run : IsRun h it.buffered
  pub next_is : it.next ≡ pos (h + length it.buffered)
  pub through_is : it.through ≡ pos t
  pub inside : h + length it.buffered ≤ t + 1

pub iterator-IsAt : (h t : ℕ) → h ≤ t + 1 → IsAt h t (iterator (pos h) (pos t))
iterator-IsAt h t k = record {
  run = tt;
  next_is = ap pos (omega arith);
  through_is = refl;
  inside = omega arith;
}

-- What is left of the range.
pub remaining :
    (h t : ℕ)
    → h ≤ t
    → t + 1 < 2 ^ 63
    → rem_euclid (add_i64 (sub_i64 (pos t) (pos h)) (pos 1)) (2 ^ 64) ≡ t - h + 1
unfolding rem_euclid
remaining h t k small =
    ap (λ z. rem_euclid z (2 ^ 64))
      (ap (λ z. add_i64 z (pos 1)) (sub_i64-pos t h k (omega arith))
        ∙ add_i64-pos (t - h) 1 (omega arith))
    ∙ omega arith

-- What a call of `next_block` comes to.
abbrev pub IsNext : ℕ → ℕ → Option Block → BlockIterator → Type 0
IsNext h t o after =
    ((b : Block) × (o ≡ some b) × (b.height ≡ pos h) × (h ≤ t) × IsAt (h + 1) t after)
    ⊎ ((o ≡ none) × (h ≡ t + 1) × IsAt h t after)

IsAt-take_first :
    (h t : ℕ) (it : BlockIterator) (b : Block) (bs : List Block)
    → it.buffered ≡ b ∷ bs
    → IsAt h t it
    → (b.height ≡ pos h) × (h ≤ t) × IsAt (h + 1) t (record it { buffered = bs })
IsAt-take_first h t it b bs e at_h =
    let (e0, rest) = subst (IsRun h) e at_h.run in
    let len : length it.buffered ≡ suc (length bs) = ap length e in
    (
      e0,
      omega (arith, len, at_h.inside),
      record {
        run = rest;
        next_is = at_h.next_is ∙ ap pos (omega (arith, len));
        through_is = at_h.through_is;
        inside = omega (arith, len, at_h.inside);
      },
    )

pub take_first-cons :
    (it : BlockIterator) (b : Block) (bs : List Block)
    → it.buffered ≡ b ∷ bs
    → take_first it ≡ (some b, record it { buffered = bs })
take_first-cons it b bs e = rw (take_first, e) refl

List-cases : {A : Type 0} (xs : List A) → ((xs ≡ []) ⊎ ((x : A) × (ys : List A) × (xs ≡ x ∷ ys)))
List-cases [] = inl refl
List-cases (x ∷ ys) = inr (x, ys, refl)

module _ {Json : Type 0} (formats : Formats Json) (c : Client) (node : Node Json) where
  refill-IsAt :
      (h t : ℕ) (it after : BlockIterator)
      → 0 < c.batch_size
      → t + 1 < 2 ^ 63
      → h ≤ t
      → it.buffered ≡ []
      → IsAt h t it
      → refill formats c node it ≡ ok after
      → IsAt h t after × (0 < length after.buffered)
  unfolding refill
  refill-IsAt h t it after batch small k empty at_h e =
      let n : it.next ≡ pos h = at_h.next_is ∙ ap pos (omega (arith, ap length empty)) in
      let count = min (t - h + 1) c.batch_size in
      let left : min (rem_euclid (add_i64 (sub_i64 it.through it.next) (pos 1)) (2 ^ 64))
            c.batch_size
          ≡ count =
        rw (n, at_h.through_is, remaining h t k small) refl in
      let (bs, f, g) =
        >>=-eq-ok
          (fetch_range formats c node it.next
            (min (rem_euclid (add_i64 (sub_i64 it.through it.next) (pos 1)) (2 ^ 64)) c.batch_size))
          _ e in
      let (len, run) =
        fetch_range-IsRun formats c node h count bs (omega arith) (rw (left, n) at f) in
      let moved =
        ap (λ m. add_i64 it.next (wrap (pos m))) left
        ∙ ap (λ z. add_i64 z (wrap (pos count))) n
        ∙ ap (add_i64 (pos h)) (wrap-pos count (omega arith))
        ∙ add_i64-pos h count (omega arith) in
      subst (λ z. IsAt h t z × (0 < length z.buffered)) (ok-injective g)
        (
          record {
            run = run;
            next_is = moved ∙ ap (λ m. pos (h + m)) (sym len);
            through_is = at_h.through_is;
            inside = omega (arith, len);
          },
          omega (arith, len),
        )

  -- If the iterator stands at a height h, its buffer holding the blocks from h up to before its
  -- next fetch, then a call of `next` that does not fail either gives the block of height h, not
  -- past the end, and stands at h + 1, or gives none and h is the first height past the end.
  pub next_block-IsNext :
      (h t : ℕ) (it after : BlockIterator) (o : Option Block)
      → 0 < c.batch_size
      → t + 1 < 2 ^ 63
      → IsAt h t it
      → next_block formats c node it ≡ ok (o, after)
      → IsNext h t o after
  unfolding next_block
  next_block-IsNext h t it after o batch small at_h e = elim (List-cases it.buffered) [
    | inr (b, bs, full) ↦
        let taken : (some b, record it { buffered = bs }) ≡ (o, after) =
          ok-injective (rw full at e) in
        let (at_b, inside, later) = IsAt-take_first h t it b bs full at_h in
        inl (
          b,
          sym (ap (λ z. z.0) taken),
          at_b,
          inside,
          subst (IsAt (h + 1) t) (ap (λ z. z.1) taken) later,
        )
    | inl empty ↦
        let n : it.next ≡ pos h = at_h.next_is ∙ ap pos (omega (arith, ap length empty)) in
        let bare = record it { buffered = [] } in
        let at_empty : IsAt h t bare = record {
          run = tt;
          next_is = n ∙ ap pos (omega arith);
          through_is = at_h.through_is;
          inside = omega (arith, at_h.inside);
        } in
        elim (Bool-cases (ltb_ℤ it.through it.next)) [
          | inl past ↦
              let over : t < h = ltb-pos t h (rw (at_h.through_is, n) at past) in
              let same = ok-injective (rw (empty, past) at e) in
              inr (
                sym (ap (λ z. z.0) same),
                omega (arith, at_h.inside),
                subst (IsAt h t) (ap (λ z. z.1) same) at_empty,
              )
          | inr left ↦
              let k : h ≤ t = ltb-pos_false t h (rw (at_h.through_is, n) at left) in
              let (filled, f, g) =
                >>=-eq-ok (refill formats c node bare) _ (rw (empty, left) at e) in
              let (at_filled, some_left) =
                refill-IsAt h t bare filled batch small k refl at_empty f in
              elim (List-cases filled.buffered) [
                | inl none_left ↦ absurd (omega (arith, some_left, ap length none_left))
                | inr (b, bs, full) ↦
                    let taken : (some b, record filled { buffered = bs }) ≡ (o, after) =
                      sym (take_first-cons filled b bs full) ∙ ok-injective g in
                    let (at_b, inside, later) = IsAt-take_first h t filled b bs full at_filled in
                    inl (
                      b,
                      sym (ap (λ z. z.0) taken),
                      at_b,
                      inside,
                      subst (IsAt (h + 1) t) (ap (λ z. z.1) taken) later,
                    )
              ]
        ]
  ]
