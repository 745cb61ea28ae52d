-- ===== src/EventId/Order.antt =====
-- Within the budget of the module's comment nothing overflows, and identifiers sort in chain order.
use midgard_rs.Common.{ℕ, ◌+◌, ◌*◌, ◌≤◌, ◌<◌, ◌≡◌, subst, ap, arith}
use midgard_rs.Common.Int.{pos, ◌≤ℤ◌, ◌<ℤ◌}
use midgard_rs.Common.Word.{add_i64-pos, mul_i64-pos}
use midgard_rs.EventId.{
  Location, begin_block, txs_results, end_block, EventId, height_scale, type_digit, tx_index_scale,
  to_i64, first_id_at_height, first_id_after_height,
}

-- The part of an identifier behind the height.
abbrev pub offset : Location → ℕ → ℕ → ℕ
offset begin_block t e = e
offset txs_results t e = type_digit + t * tx_index_scale + e
offset end_block t e = 9 * type_digit + e

abbrev pub IsInPhase : Location → ℕ → ℕ → Type 0
IsInPhase begin_block t e = e < 1_000_000_000
IsInPhase txs_results t e = (t < 800_000) × (e < 10_000)
IsInPhase end_block t e = e < 1_000_000_000

-- The identifier of numbers within the budget.
abbrev pub event_id : Location → ℕ → ℕ → ℕ → EventId
event_id l h t e = record { height = pos h; location = l; tx_index = pos t; event_index = pos e }

pub offset_lt : (l : Location) (t e : ℕ) → IsInPhase l t e → offset l t e < height_scale
offset_lt begin_block t e p = omega arith
offset_lt txs_results t e p = omega arith
offset_lt end_block t e p = omega arith

abbrev pub max_height : ℕ
max_height = 922_337_202

-- Up to the documented limits an identifier is the height and the offset side by side.
pub to_i64-eq :
    (l : Location) (h t e : ℕ)
    → h ≤ max_height
    → IsInPhase l t e
    → to_i64 (event_id l h t e) ≡ pos (h * height_scale + offset l t e)
unfolding to_i64
to_i64-eq begin_block h t e b p =
    rw (mul_i64-pos h height_scale (omega arith), add_i64-pos (h * height_scale) e (omega arith))
to_i64-eq txs_results h t e b p =
    rw
      (
        mul_i64-pos h height_scale (omega arith),
        mul_i64-pos t tx_index_scale (omega arith),
        add_i64-pos (h * height_scale) type_digit (omega arith),
        add_i64-pos (h * height_scale + type_digit) (t * tx_index_scale) (omega arith),
        add_i64-pos (h * height_scale + type_digit + t * tx_index_scale) e (omega arith),
      )
      (ap pos (omega arith))
to_i64-eq end_block h t e b p =
    rw
      (
        mul_i64-pos h height_scale (omega arith),
        mul_i64-pos type_digit 9 (omega arith),
        add_i64-pos (h * height_scale) (type_digit * 9) (omega arith),
        add_i64-pos (h * height_scale + type_digit * 9) e (omega arith),
      )
      (ap pos (omega arith))

-- The order in which a block runs its phases.
abbrev pub phase : Location → ℕ
phase begin_block = 0
phase txs_results = 1
phase end_block = 2

-- Chain order: by height, then phase, then transaction, then event.
pub data Before (l : Location) (h t e : ℕ) (l' : Location) (h' t' e' : ℕ) : Type 0 where
  by_height : h < h' → Before l h t e l' h' t' e'
  by_phase : h ≡ h' → phase l < phase l' → Before l h t e l' h' t' e'
  by_tx : h ≡ h' → l ≡ txs_results → l' ≡ txs_results → t < t' → Before l h t e l' h' t' e'
  by_event : h ≡ h' → l ≡ l' → t ≡ t' → e < e' → Before l h t e l' h' t' e'

offset_mono :
    (l : Location) (t e : ℕ) (l' : Location) (t' e' : ℕ)
    → IsInPhase l t e
    → IsInPhase l' t' e'
    → phase l < phase l'
    → offset l t e < offset l' t' e'
offset_mono begin_block t e begin_block t' e' p q lt = absurd (omega arith)
offset_mono begin_block t e txs_results t' e' p q lt = omega arith
offset_mono begin_block t e end_block t' e' p q lt = omega arith
offset_mono txs_results t e begin_block t' e' p q lt = absurd (omega arith)
offset_mono txs_results t e txs_results t' e' p q lt = absurd (omega arith)
offset_mono txs_results t e end_block t' e' p q lt = omega arith
offset_mono end_block t e begin_block t' e' p q lt = absurd (omega arith)
offset_mono end_block t e txs_results t' e' p q lt = absurd (omega arith)
offset_mono end_block t e end_block t' e' p q lt = absurd (omega arith)

offset_event : (l : Location) (t e e' : ℕ) → e < e' → offset l t e < offset l t e'
offset_event begin_block t e e' lt = lt
offset_event txs_results t e e' lt = omega arith
offset_event end_block t e e' lt = omega arith

place_mono :
    (l : Location) (h t e : ℕ) (l' : Location) (h' t' e' : ℕ)
    → IsInPhase l t e
    → IsInPhase l' t' e'
    → Before l h t e l' h' t' e'
    → h * height_scale + offset l t e < h' * height_scale + offset l' t' e'
place_mono l h t e l' h' t' e' p q (by_height lt) = omega (arith, offset_lt l t e p)
place_mono l h t e l' h' t' e' p q (by_phase k lt) =
    omega (arith, offset_mono l t e l' t' e' p q lt)
place_mono l h t e l' h' t' e' p q (by_tx k x y lt) =
    rw (x, y) (omega (arith, subst (λ k. IsInPhase k t e) x p))
place_mono l h t e l' h' t' e' p q (by_event k x y lt) =
    rw (x, y) (omega (arith, offset_event l' t' e e' lt))

-- For heights up to 922,337,202 and indices within the budget of their phase, an event that comes
-- before another on the chain (by height, then phase, then transaction, then event) has the smaller
-- identifier.
pub to_i64_mono :
    (l : Location) (h t e : ℕ) (l' : Location) (h' t' e' : ℕ)
    → h ≤ max_height
    → h' ≤ max_height
    → IsInPhase l t e
    → IsInPhase l' t' e'
    → Before l h t e l' h' t' e'
    → to_i64 (event_id l h t e) <ℤ to_i64 (event_id l' h' t' e')
to_i64_mono l h t e l' h' t' e' b b' p q before =
    rw (to_i64-eq l h t e b p, to_i64-eq l' h' t' e' b' q)
      (omega (arith, place_mono l h t e l' h' t' e' p q before))

-- For a height up to 922,337,202 and indices within the budget of their phase, an identifier is at
-- least the first one at its height and less than the first one after it.
pub to_i64_bounds :
    (l : Location) (h t e : ℕ)
    → h ≤ max_height
    → IsInPhase l t e
    → (first_id_at_height (pos h) ≤ℤ to_i64 (event_id l h t e))
      × (to_i64 (event_id l h t e) <ℤ first_id_after_height (pos h))
unfolding first_id_at_height first_id_after_height
to_i64_bounds l h t e b p =
    rw
      (
        to_i64-eq l h t e b p,
        add_i64-pos h 1 (omega arith),
        mul_i64-pos h height_scale (omega arith),
        mul_i64-pos (h + 1) height_scale (omega arith),
      )
      (omega (arith, offset_lt l t e p))
