-- ===== src/EventId/Parse.antt =====
-- `parse` takes an identifier apart again.
use midgard_rs.Common.{ℕ, ◌+◌, ◌-◌, ◌*◌, ◌/◌, ◌%◌, ◌≤◌, ◌≡◌, ap, arith, lt→ltb, ltb-false}
use midgard_rs.Common.Int.{ℤ, pos, quot, rem}
use midgard_rs.Common.Word.{mul_i64-pos, sub_i64-pos}
use midgard_rs.EventId.{
  Location, begin_block, txs_results, end_block, height_scale, type_digit, tx_index_scale,
  end_block_pseudo_tx, to_i64, parse_rest, parse, height_of,
}
use midgard_rs.EventId.Order.{offset, IsInPhase, event_id, max_height, offset_lt, to_i64-eq}

-- What the transaction index is reported as.
abbrev pub reported_tx : Location → ℕ → ℤ
reported_tx begin_block t = pos 0
reported_tx txs_results t = pos t
reported_tx end_block t = end_block_pseudo_tx

parse_rest-offset :
    (l : Location) (h : ℤ) (t e : ℕ)
    → IsInPhase l t e
    → parse_rest h (pos (offset l t e))
      ≡ record { height = h; location = l; tx_index = reported_tx l t; event_index = pos e }
unfolding parse_rest quot rem
parse_rest-offset begin_block h t e p = rw (lt→ltb (e + 0) 1_000_000_000 (omega arith))
parse_rest-offset txs_results h t e p =
    let r = type_digit + t * tx_index_scale + e in
    let ti : (r - type_digit) / tx_index_scale ≡ t = omega arith in
    let ei : r % tx_index_scale ≡ e = omega arith in
    rw (
      ltb-false (r + 0) 1_000_000_000 (omega arith),
      mul_i64-pos type_digit 9 (omega arith),
      lt→ltb (r + 0) 9_000_000_000 (omega arith),
      sub_i64-pos r type_digit (omega arith) (omega arith),
      ti,
      ei,
    )
parse_rest-offset end_block h t e p =
    let r = 9 * type_digit + e in
    let ei : r % type_digit ≡ e = omega arith in
    rw (
      ltb-false (r + 0) 1_000_000_000 (omega arith),
      mul_i64-pos type_digit 9 (omega arith),
      ltb-false (r + 0) 9_000_000_000 (omega arith),
      ei,
    )

-- For a height up to 922,337,202 and indices within the budget of their phase, `parse` takes an
-- identifier apart into its height, phase and event index, with the transaction index of a
-- transaction's event, 0 for a begin-block event and the pseudo index for an end-block event.
pub parse-to_i64 :
    (l : Location) (h t e : ℕ)
    → h ≤ max_height
    → IsInPhase l t e
    → parse (to_i64 (event_id l h t e))
      ≡ record { height = pos h; location = l; tx_index = reported_tx l t; event_index = pos e }
unfolding parse quot rem
parse-to_i64 l h t e b p =
    let lt = offset_lt l t e p in
    let front : (h * height_scale + offset l t e) / height_scale ≡ h = omega arith in
    let back : (h * height_scale + offset l t e) % height_scale ≡ offset l t e = omega arith in
    rw (to_i64-eq l h t e b p, front, back) (parse_rest-offset l (pos h) t e p)

-- For a height up to 922,337,202 and indices within the budget of their phase, `height_of` an
-- identifier is its height.
pub height_of-to_i64 :
    (l : Location) (h t e : ℕ)
    → h ≤ max_height
    → IsInPhase l t e
    → height_of (to_i64 (event_id l h t e)) ≡ pos h
unfolding height_of quot
height_of-to_i64 l h t e b p =
    let lt = offset_lt l t e p in rw (to_i64-eq l h t e b p) (ap pos (omega arith))
