-- ===== src/Daemon/Sync/CatchUp.antt =====
-- crates/midgard/src/sync.rs: the loops end, and the cursor passes no block that is not stored.
use midgard_rs.Common.{
  ℕ, zero, suc, ◌+◌, ◌-◌, ◌<◌, ◌≤◌, ◌^◌, ◌||◌, ◌≡◌, refl, sym, ap, ◌∙◌, Bool, true, false, not,
  Bool-cases, inl, inr, ◌⊎◌, Option, some, Result, ok, err, arith, if◌then◌else◌,
}
use midgard_rs.Common.Int.{ℤ, pos, eqb_ℤ, ltb_ℤ}
use midgard_rs.Common.Text.{Text}
use midgard_rs.Common.Int.Order.{eqb_self, ltb-pos, ltb-pos_false}
use midgard_rs.Chain.Types.{Block}
use midgard_rs.Chain.Client.{ChainError, Formats, BlockIterator, iterator, next_block}
use midgard_rs.Chain.Client.Iterator.{IsAt, remaining, iterator-IsAt, next_block-IsNext}
use midgard_rs.Cursor.{observe}
use midgard_rs.Record.Rows.{F64}
use midgard_rs.Record.Writer.Known.{known_after, add-known_after}
use midgard_rs.Daemon.Sync.{Syncer, Moment, observed, add_block, catch_up_loop, catch_up, span}

-- A height is in the log of blocks or in the buffer.
abbrev pub knows : Syncer → ℤ → Bool
knows s h = known_after (s.db, s.writer, true) h

-- The last height of the cursor after `k` blocks from a height on.
abbrev pub height_after : Syncer → ℕ → ℕ → ℤ
height_after s h zero = s.cursor.last.height
height_after s h (suc k) = pos (h + k)

pub height_after-suc :
    (now : Syncer) (h n : ℕ)
    → now.cursor.last.height ≡ pos h
    → height_after now (h + 1) n ≡ pos (h + n)
height_after-suc now h zero at_h = at_h ∙ ap pos (omega arith)
height_after-suc now h (suc n) at_h = ap pos (omega arith)

pub le-cases : (a b : ℕ) → a ≤ b → ((a ≡ b) ⊎ (a + 1 ≤ b))
le-cases a b e = omega arith

-- From one state to another the cursor passes `k` blocks, which are known.
pub record Passes (h k : ℕ) (s after : Syncer) : Type 0 where
  pub cursor_at : after.cursor.last.height ≡ height_after s h k
  pub passed : (j : ℕ) → h ≤ j → j < h + k → knows after (pos j) ≡ true
  pub keeps : (z : ℤ) → knows s z ≡ true → knows after z ≡ true

pub Passes-nothing :
    (h : ℕ) (s after : Syncer)
    → after.cursor ≡ s.cursor
    → ((z : ℤ) → knows s z ≡ true → knows after z ≡ true)
    → Passes h 0 s after
Passes-nothing h s after e k = record {
  cursor_at = ap (λ c. c.last.height) e;
  passed = λ j a b. absurd (omega arith);
  keeps = k;
}

-- One block, then others.
pub Passes-cons :
    (h k : ℕ) (s now after : Syncer)
    → now.cursor.last.height ≡ pos h
    → knows now (pos h) ≡ true
    → ((z : ℤ) → knows s z ≡ true → knows now z ≡ true)
    → Passes (h + 1) k now after
    → Passes h (suc k) s after
Passes-cons h k s now after at_h known kept later = record {
  cursor_at = later.cursor_at ∙ height_after-suc now h k at_h;
  passed = λ j a b. elim (le-cases h j a) [
    | inl same ↦ rw (sym same) (later.keeps (pos h) known)
    | inr above ↦ later.passed j above (omega arith)
  ];
  keeps = λ z e. later.keeps z (kept z e);
}

pub Result-cases :
    {E A : Type 0} (r : Result E A) → (((e : E) × (r ≡ err e)) ⊎ ((a : A) × (r ≡ ok a)))
Result-cases (err e) = inl (e, refl)
Result-cases (ok a) = inr (a, refl)

pub or-true : (a : Bool) → a || true ≡ true
or-true true = refl
or-true false = refl

pub or-keeps : (a b : Bool) → a ≡ true → a || b ≡ true
or-keeps a b e = ground arith

module _ {Json : Type 0} (formats : Formats Json) (parse_f64 : Text → Option F64) where
  pub add_block-knows :
      (commits : Bool) (b : Block) (s : Syncer) (z : ℤ)
      → knows (add_block formats parse_f64 commits b s).0 z ≡ knows s z || eqb_ℤ b.height z
  unfolding add_block
  add_block-knows commits b s z = add-known_after parse_f64 commits s.db b s.writer z

  pub span-pos :
      (h t : ℕ) → h ≤ t + 1 → t + 1 < 2 ^ 63 → span formats parse_f64 (pos h) (pos t) ≡ t + 1 - h
  unfolding span
  span-pos h t k small = elim (Bool-cases (ltb_ℤ (pos t) (pos h))) [
    | inl e ↦ rw e (omega (arith, ltb-pos t h e))
    | inr e ↦ rw (e, remaining h t (ltb-pos_false t h e) small) (omega (arith, ltb-pos_false t h e))
  ]

  -- The outcome of a loop from a height on, up to a tip.
  abbrev pub Ends : ℕ → ℕ → Syncer → Option (Syncer × Result ChainError Unit) → Type 0
  Ends h t s out =
      (k : ℕ) × (after : Syncer) × (r : Result ChainError Unit) × (out ≡ some (after, r))
      × (h + k ≤ t + 1)
      × Passes h k s after

  chosen :
      (h t : ℕ) (s : Syncer) (c a : Bool) (x y z : Option (Syncer × Result ChainError Unit))
      → Ends h t s x
      → Ends h t s y
      → Ends h t s z
      → Ends h t s (if c then x else if not a then y else z)
  chosen h t s true a x y z p q r = p
  chosen h t s false false x y z p q r = q
  chosen h t s false true x y z p q r = r

  pub add_block-client :
      (commits : Bool) (b : Block) (s : Syncer)
      → (add_block formats parse_f64 commits b s).0.client ≡ s.client
  unfolding add_block
  add_block-client commits b s = refl

  pub add_block-cursor :
      (commits : Bool) (b : Block) (s : Syncer)
      → (add_block formats parse_f64 commits b s).0.cursor ≡ s.cursor
  unfolding add_block
  add_block-cursor commits b s = refl

  pub observed-height :
      (b : Block) (s : Syncer) → (observed formats parse_f64 b s).cursor.last.height ≡ b.height
  unfolding observe
  observed-height b s = refl

  catch_up_loop-Ends :
      (fuel h t : ℕ) (it : BlockIterator) (world : ℕ → Moment Json) (i : ℕ) (s : Syncer)
      → 0 < s.client.batch_size
      → t + 1 < 2 ^ 63
      → IsAt h t it
      → h ≤ t + 1
      → t + 1 < h + fuel
      → Ends h t s (catch_up_loop formats parse_f64 fuel it world i s)
  catch_up_loop-Ends zero h t it world i s batch small at_h inside enough = absurd (omega arith)
  catch_up_loop-Ends (suc fuel) h t it world i s batch small at_h inside enough =
      elim (Result-cases (next_block formats s.client (world i).node it)) [
        | inl (e, f) ↦
            rw (catch_up_loop, f)
              (0, s, err e, refl, omega arith, Passes-nothing h s s refl (λ z k. k))
        | inr ((o, later), f) ↦
            elim (next_block-IsNext formats s.client (world i).node h t it later o batch small at_h
              f) [
                | inr (e, past, at_end) ↦
                    rw (catch_up_loop, f, e)
                      (0, s, ok tt, refl, omega arith, Passes-nothing h s s refl (λ z k. k))
                | inl (b, e, height, left, at_next) ↦
                    let (added, add_ok) = add_block formats parse_f64 (world i).add_commits b s in
                    let now = observed formats parse_f64 b added in
                    let kept : (z : ℤ) → knows s z ≡ true → knows added z ≡ true =
                      λ z k. add_block-knows (world i).add_commits b s z ∙ or-keeps _ _ k in
                    let stored : knows added (pos h) ≡ true =
                      add_block-knows (world i).add_commits b s (pos h)
                      ∙ ap (λ y. knows s (pos h) || eqb_ℤ y (pos h)) height
                      ∙ ap (λ y. knows s (pos h) || y) (eqb_self (pos h))
                      ∙ or-true (knows s (pos h)) in
                    let ended : Ends h t s (some (added, ok tt)) = (
                      0,
                      added,
                      ok tt,
                      refl,
                      omega arith,
                      Passes-nothing h s added (add_block-cursor (world i).add_commits b s) kept,
                    ) in
                    let on : Ends h t s
                        (catch_up_loop formats parse_f64 fuel later world (i + 1) now) =
                      let (k, after, r, same, bound, passes) =
                        catch_up_loop-Ends fuel (h + 1) t later world (i + 1) now
                          (rw (add_block-client (world i).add_commits b s) batch) small at_next
                          (omega arith) (omega arith) in
                      (
                        suc k,
                        after,
                        r,
                        same,
                        omega arith,
                        Passes-cons h k s now after (observed-height b added ∙ height) stored kept
                            passes,
                      ) in
                    rw (catch_up_loop, f, e)
                      (chosen h t s (world i).is_cancelled add_ok _ _ _
                        (0, s, ok tt, refl, omega arith, Passes-nothing h s s refl (λ z k. k)) ended
                        on)
              ]
      ]

  -- Whatever the node replies, whichever flushes commit and whenever it is cancelled, `catch_up`
  -- from a height h up to a tip ends; the cursor has then passed some number of blocks from h on,
  -- one height after the other and at most up to the tip, each of these heights is in the log of
  -- blocks or in the buffer, and no height that was there is gone.
  pub catch_up-Ends :
      (h t : ℕ) (world : ℕ → Moment Json) (s : Syncer)
      → 0 < s.client.batch_size
      → t + 1 < 2 ^ 63
      → h ≤ t + 1
      → Ends h t s (catch_up formats parse_f64 (pos h) (pos t) world s)
  unfolding catch_up
  catch_up-Ends h t world s batch small k =
      catch_up_loop-Ends (span formats parse_f64 (pos h) (pos t) + 1) h t (iterator (pos h) (pos t))
        world 0 s batch small (iterator-IsAt h t k) k (rw (span-pos h t k small) (omega arith))
